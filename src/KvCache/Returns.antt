-- ===== src/KvCache/Returns.antt =====
-- `_write_combined_cache` as a whole: with the blocks that `_combined_target_block_count` asks for, a
-- source that can be read is written completely.
use permeant_os.Prelude.{
  ℕ, zero, suc, ◌*◌, ◌/◌, ◌≤◌, ◌≡◌, ◌∙◌, ap, sym, inl, inr, refl, Bool, true, false, ◌&&◌, List, [],
  ◌∷◌, Option, arith, eqb, Bool-cases, subst,
}
use permeant_os.Py.Result.{ok, >>=-eq-ok, ok-injective}
use permeant_os.KvCache.{
  Tensor, Layer, Views, Layout, token_head_dim, head_token_dim, split_token_head_dim,
  split_head_token_dim, unsupported, or_one, target_blocks, layer_block_views, source_block_count,
  and_divisible, split_layout, layout_of, combined_layout, combined_target_block_count,
}
use permeant_os.KvCache.Places.{Distinct}
use permeant_os.KvCache.Outer.{Wrote}
use permeant_os.KvCache.Complete.{divides, write_views-Complete}
use permeant_os.KvCache.Write.{write_split, write_shape, write_views, write_combined_cache}
use permeant_os.KvCache.Total.{
  Readable, Room, write_token_head_dim-total, write_head_token_dim-total,
  write_split_token_head_dim-total, write_split_head_token_dim-total,
}

abbrev pub Supported : Layout → Type 0
Supported (unsupported shape) = ⊥
Supported _ = Unit {0}

-- What the test before a division has shown.
tested : (test : Bool) (a b : ℕ) → and_divisible test a b ≡ ok true → test ≡ true
unfolding and_divisible
tested false a b h = cc h
tested true a b h = refl

le-or_one : (n : ℕ) → n ≤ or_one n
le-or_one zero = omega arith
le-or_one (suc n) = omega arith

module _ {E : Type 0} (v : Views E) (ids : Option (List ℕ)) (blocks s0 : ℕ)
    (readable : Readable v ids blocks) where
  smaller-Room : (per : ℕ) → Room v ids (blocks * or_one per) s0 → Room v ids (blocks * per) s0
  smaller-Room per room i h = room i (let l = le-or_one per in grind arith)

  write_split-total :
      (s2 s3 s4 : ℕ) (shape : List ℕ) (layout : Layout) (c : Tensor E)
      → split_layout shape s2 s3 s4 v.block_size v.kv_heads v.head_dim ≡ ok layout
      → Supported layout
      → Room v ids (target_blocks layout blocks) s0
      → c.shape ≡ s0 ∷ 2 ∷ s2 ∷ s3 ∷ s4 ∷ []
      → (c' : Tensor E) × (write_split v ids blocks s2 s3 s4 c ≡ ok c')
  unfolding split_layout write_split target_blocks
  write_split-total s2 s3 s4 shape layout c h s room shaped =
      let (by_token, e1, h1) =
        >>=-eq-ok (and_divisible (eqb s3 v.kv_heads && eqb s4 v.head_dim) v.block_size s2) _ h in
      elim (Bool-cases by_token) [
        | inl yes1 ↦
            let d = e1 ∙ ap ok yes1 in
            let same : split_token_head_dim s2 (v.block_size / s2) ≡ layout =
              ok-injective _ layout (rw yes1 at h1) in
            let t : eqb s3 v.kv_heads && eqb s4 v.head_dim ≡ true = tested _ v.block_size s2 d in
            let e3 : s3 ≡ v.kv_heads = ground arith in
            let e4 : s4 ≡ v.head_dim = ground arith in
            rw d (
              write_split_token_head_dim-total v ids blocks s0 readable s2 (v.block_size / s2) c
                (divides _ v.block_size s2 d)
                (smaller-Room (v.block_size / s2)
                  (subst (λ l. Room v ids (target_blocks l blocks) s0) (sym same) room))
                (cc (shaped, e3, e4)))
        | inr no1 ↦
            let (by_head, e2, h2) =
              >>=-eq-ok (and_divisible (eqb s2 v.kv_heads && eqb s4 v.head_dim) v.block_size s3) _
                (rw no1 at h1) in
            elim (Bool-cases by_head) [
              | inl yes2 ↦
                  let d = e2 ∙ ap ok yes2 in
                  let same : split_head_token_dim s3 (v.block_size / s3) ≡ layout =
                    ok-injective _ layout (rw yes2 at h2) in
                  let t : eqb s2 v.kv_heads && eqb s4 v.head_dim ≡ true =
                    tested _ v.block_size s3 d in
                  let e3 : s2 ≡ v.kv_heads = ground arith in
                  let e4 : s4 ≡ v.head_dim = ground arith in
                  rw (e1 ∙ ap ok no1, d)
                    (write_split_head_token_dim-total v ids blocks s0 readable s3
                      (v.block_size / s3) c (divides _ v.block_size s3 d)
                      (smaller-Room (v.block_size / s3)
                        (subst (λ l. Room v ids (target_blocks l blocks) s0) (sym same) room))
                      (cc (shaped, e3, e4)))
              | inr no2 ↦
                  absurd (
                    subst Supported (sym (ok-injective (unsupported shape) layout (rw no2 at h2)))
                      s)
            ]
      ]

  write_shape-total :
      (s2 s3 s4 : ℕ) (shape : List ℕ) (layout : Layout) (c : Tensor E)
      → layout_of shape s2 s3 s4 v.block_size v.kv_heads v.head_dim ≡ ok layout
      → Supported layout
      → Room v ids (target_blocks layout blocks) s0
      → c.shape ≡ s0 ∷ 2 ∷ s2 ∷ s3 ∷ s4 ∷ []
      → (c' : Tensor E) × (write_shape v ids blocks s2 s3 s4 c ≡ ok c')
  unfolding layout_of write_shape target_blocks
  write_shape-total s2 s3 s4 shape layout c h s room shaped =
      elim (Bool-cases (eqb s2 v.block_size && (eqb s3 v.kv_heads && eqb s4 v.head_dim))) [
        | inl yes1 ↦
            let same : token_head_dim v.block_size ≡ layout =
              ok-injective _ layout (rw yes1 at h) in
            let e2 : s2 ≡ v.block_size = ground arith in
            let e3 : s3 ≡ v.kv_heads = ground arith in
            let e4 : s4 ≡ v.head_dim = ground arith in
            rw yes1 (
              write_token_head_dim-total v ids blocks s0 readable c
                (subst (λ l. Room v ids (target_blocks l blocks) s0) (sym same) room)
                (cc (shaped, e2, e3, e4)))
        | inr no1 ↦
            elim (Bool-cases (eqb s2 v.kv_heads && (eqb s3 v.block_size && eqb s4 v.head_dim))) [
              | inl yes2 ↦
                  let same : head_token_dim v.block_size ≡ layout =
                    ok-injective _ layout (rw (no1, yes2) at h) in
                  let e2 : s2 ≡ v.kv_heads = ground arith in
                  let e3 : s3 ≡ v.block_size = ground arith in
                  let e4 : s4 ≡ v.head_dim = ground arith in
                  rw (no1, yes2)
                    (write_head_token_dim-total v ids blocks s0 readable c
                      (subst (λ l. Room v ids (target_blocks l blocks) s0) (sym same) room)
                      (cc (shaped, e2, e3, e4)))
              | inr no2 ↦
                  rw (no1, no2)
                    (write_split-total s2 s3 s4 shape layout c (rw (no1, no2) at h) s room shaped)
            ]
      ]

  write_views-total :
      (shape : List ℕ) (layout : Layout) (c : Tensor E) (rest : List ℕ)
      → shape ≡ s0 ∷ rest
      → combined_layout shape v.block_size v.kv_heads v.head_dim ≡ ok layout
      → Supported layout
      → Room v ids (target_blocks layout blocks) s0
      → c.shape ≡ shape
      → (c' : Tensor E) × (write_views v ids blocks shape c ≡ ok c')
  unfolding combined_layout write_views
  write_views-total (x ∷ s1 ∷ s2 ∷ s3 ∷ s4 ∷ []) layout c rest e h s room shaped =
      elim (Bool-cases (eqb s1 2)) [
        | inl two ↦
            let t : s1 ≡ 2 = ground arith in
            let x0 : x ≡ s0 = cc e in
            rw two (write_shape-total s2 s3 s4 _ layout c (rw two at h) s room (cc (shaped, t, x0)))
        | inr other ↦ absurd (subst Supported (sym (ok-injective _ layout (rw other at h))) s)
      ]
  write_views-total [] layout c rest e h s room shaped =
      absurd (subst Supported (sym (ok-injective _ layout h)) s)
  write_views-total (a ∷ []) layout c rest e h s room shaped =
      absurd (subst Supported (sym (ok-injective _ layout h)) s)
  write_views-total (a ∷ b ∷ []) layout c rest e h s room shaped =
      absurd (subst Supported (sym (ok-injective _ layout h)) s)
  write_views-total (a ∷ b ∷ d ∷ []) layout c rest e h s room shaped =
      absurd (subst Supported (sym (ok-injective _ layout h)) s)
  write_views-total (a ∷ b ∷ d ∷ f ∷ []) layout c rest e h s room shaped =
      absurd (subst Supported (sym (ok-injective _ layout h)) s)
  write_views-total (a ∷ b ∷ d ∷ f ∷ g ∷ i ∷ l) layout c rest e h s room shaped =
      absurd (subst Supported (sym (ok-injective _ layout h)) s)

-- If the sampler supports the layout of the cache, every point of the source can be read, and the
-- target blocks that the count of target blocks asks for are distinct blocks of the cache, then the
-- layer is written, the cache keeps its shape, and for every point of the source the cache then holds
-- the point's key and value at the indices that the sampler reads.
pub write_combined_cache_total :
    {E : Type 0} (layer : Layer E) (ids : Option (List ℕ)) (cache : Tensor E) (v : Views E)
    (blocks count s0 : ℕ) (rest : List ℕ) (layout : Layout) (distinct : Distinct ids)
    → cache.shape ≡ s0 ∷ rest
    → layer_block_views layer ≡ ok v
    → source_block_count v.source ≡ ok blocks
    → combined_layout cache.shape v.block_size v.kv_heads v.head_dim ≡ ok layout
    → Supported layout
    → Readable v ids blocks
    → combined_target_block_count cache layer ≡ ok count
    → Room v ids count s0
    → (cache' : Tensor E) × (write_combined_cache cache layer ids ≡ ok cache')
      × Wrote v ids distinct blocks layout cache cache'
unfolding write_combined_cache combined_target_block_count
write_combined_cache_total layer ids cache v blocks count s0 rest layout distinct shaped e1 e2 e3 s
      readable counted room =
    let asked : target_blocks layout blocks ≡ count =
      ok-injective (target_blocks layout blocks) count (rw (e1, e2, e3) at counted) in
    let (c', h) =
      write_views-total v ids blocks s0 readable cache.shape layout cache rest shaped e3 s
        (subst (λ n. Room v ids n s0) (sym asked) room) refl in
    let (layout', f3, held) = write_views-Complete v ids distinct blocks cache.shape cache c' h in
    (
      c',
      rw (e1, e2) h,
      subst (λ l. Wrote v ids distinct blocks l cache c')
          (ok-injective layout' layout (sym f3 ∙ e3)) held,
    )
