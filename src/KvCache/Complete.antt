-- ===== src/KvCache/Complete.antt =====
-- `_write_combined_cache` and `_combined_layout`: the writer and the sampler of a cache agree.
use permeant_os.Prelude.{
  ℕ, zero, suc, ◌*◌, ◌/◌, ◌%◌, ◌<◌, ◌≡◌, inl, inr, refl, Bool, true, false, ◌&&◌, List, [], ◌∷◌,
  Option, arith, eqb, Bool-cases, ◌∙◌, ap,
}
use permeant_os.Py.Result.{ok, >>=-eq-ok}
use native.Mathlib.Nat.{div-add-mod'}
use permeant_os.KvCache.{
  Tensor, Layer, Views, Layout, token_head_dim, head_token_dim, split_token_head_dim,
  split_head_token_dim, layer_block_views, source_block_count, and_divisible, divisible,
  split_layout, layout_of, combined_layout,
}
use permeant_os.KvCache.Places.{Distinct}
use permeant_os.KvCache.Write.{write_split, write_shape, write_views, write_combined_cache}
use permeant_os.KvCache.Outer.{Wrote}
use permeant_os.KvCache.Layouts.{
  write_token_head_dim-Complete, write_head_token_dim-Complete, write_split_token_head_dim-Complete,
  write_split_head_token_dim-Complete,
}

pub divides : (test : Bool) (a b : ℕ) → and_divisible test a b ≡ ok true → (0 < b) × (a / b * b ≡ a)
unfolding and_divisible divisible
divides false a b h = cc h
divides true a zero h = cc h
divides true a (suc b) h =
    (omega arith, let e : a % suc b ≡ 0 = ground arith in omega (arith, div-add-mod' a (suc b)))

module _ {E : Type 0} (v : Views E) (ids : Option (List ℕ)) (distinct : Distinct ids) where
  write_split-Complete :
      (shape : List ℕ) (blocks s2 s3 s4 : ℕ) (c c' : Tensor E)
      → write_split v ids blocks s2 s3 s4 c ≡ ok c'
      → (layout : Layout) × (split_layout shape s2 s3 s4 v.block_size v.kv_heads v.head_dim
          ≡ ok layout)
        × Wrote v ids distinct blocks layout c c'
  unfolding write_split split_layout
  write_split-Complete shape blocks s2 s3 s4 c c' h =
      let (by_token, e1, h1) =
        >>=-eq-ok (and_divisible (eqb s3 v.kv_heads && eqb s4 v.head_dim) v.block_size s2) _ h in
      elim (Bool-cases by_token) [
        | inl yes1 ↦
            let d = e1 ∙ ap ok yes1 in
            rw d (
              split_token_head_dim s2 (v.block_size / s2),
              refl,
              write_split_token_head_dim-Complete v ids distinct blocks s2 (v.block_size / s2) c c'
                  (divides _ v.block_size s2 d) (rw yes1 at h1),
            )
        | inr no1 ↦
            let (by_head, e2, h2) =
              >>=-eq-ok (and_divisible (eqb s2 v.kv_heads && eqb s4 v.head_dim) v.block_size s3) _
                (rw no1 at h1) in
            elim (Bool-cases by_head) [
              | inl yes2 ↦
                  let d = e2 ∙ ap ok yes2 in
                  rw (e1 ∙ ap ok no1, d)
                    (
                      split_head_token_dim s3 (v.block_size / s3),
                      refl,
                      write_split_head_token_dim-Complete v ids distinct blocks s3
                          (v.block_size / s3) c c' (divides _ v.block_size s3 d) (rw yes2 at h2),
                    )
              | inr no2 ↦ cc (rw no2 at h2)
            ]
      ]

  write_shape-Complete :
      (shape : List ℕ) (blocks s2 s3 s4 : ℕ) (c c' : Tensor E)
      → write_shape v ids blocks s2 s3 s4 c ≡ ok c'
      → (layout : Layout) × (layout_of shape s2 s3 s4 v.block_size v.kv_heads v.head_dim
          ≡ ok layout)
        × Wrote v ids distinct blocks layout c c'
  unfolding write_shape layout_of
  write_shape-Complete shape blocks s2 s3 s4 c c' h =
      elim (Bool-cases (eqb s2 v.block_size && (eqb s3 v.kv_heads && eqb s4 v.head_dim))) [
        | inl yes1 ↦ rw yes1 (
          token_head_dim v.block_size,
          refl,
          write_token_head_dim-Complete v ids distinct blocks v.block_size c c' (rw yes1 at h),
        )
        | inr no1 ↦
            elim (Bool-cases (eqb s2 v.kv_heads && (eqb s3 v.block_size && eqb s4 v.head_dim))) [
              | inl yes2 ↦
                  rw (no1, yes2)
                    (
                      head_token_dim v.block_size,
                      refl,
                      write_head_token_dim-Complete v ids distinct blocks v.block_size c c'
                          (rw (no1, yes2) at h),
                    )
              | inr no2 ↦
                  rw (no1, no2)
                    (write_split-Complete shape blocks s2 s3 s4 c c' (rw (no1, no2) at h))
            ]
      ]

  pub write_views-Complete :
      (blocks : ℕ) (shape : List ℕ) (c c' : Tensor E)
      → write_views v ids blocks shape c ≡ ok c'
      → (layout : Layout) × (combined_layout shape v.block_size v.kv_heads v.head_dim ≡ ok layout)
        × Wrote v ids distinct blocks layout c c'
  unfolding write_views combined_layout
  write_views-Complete blocks (s0 ∷ s1 ∷ s2 ∷ s3 ∷ s4 ∷ []) c c' h = elim (Bool-cases (eqb s1 2)) [
    | inl two ↦ rw two (write_shape-Complete _ blocks s2 s3 s4 c c' (rw two at h))
    | inr other ↦ cc (rw other at h)
  ]
  write_views-Complete blocks [] c c' h = cc h
  write_views-Complete blocks (s0 ∷ []) c c' h = cc h
  write_views-Complete blocks (s0 ∷ s1 ∷ []) c c' h = cc h
  write_views-Complete blocks (s0 ∷ s1 ∷ s2 ∷ []) c c' h = cc h
  write_views-Complete blocks (s0 ∷ s1 ∷ s2 ∷ s3 ∷ []) c c' h = cc h
  write_views-Complete blocks (s0 ∷ s1 ∷ s2 ∷ s3 ∷ s4 ∷ s5 ∷ shape) c c' h = cc h

-- If the layer is written into a cache whose target blocks are distinct, then the sampler finds a
-- layout for the cache, whose shape is kept, and for every point of the source the cache holds the
-- point's key and value at the indices that the sampler reads.
pub write_combined_cache-Wrote :
    {E : Type 0} (layer : Layer E) (ids : Option (List ℕ)) (cache cache' : Tensor E) (v : Views E)
    (blocks : ℕ) (distinct : Distinct ids)
    → write_combined_cache cache layer ids ≡ ok cache'
    → layer_block_views layer ≡ ok v
    → source_block_count v.source ≡ ok blocks
    → (layout : Layout) × (combined_layout cache.shape v.block_size v.kv_heads v.head_dim
        ≡ ok layout)
      × Wrote v ids distinct blocks layout cache cache'
unfolding write_combined_cache
write_combined_cache-Wrote layer ids cache cache' v blocks distinct h e1 e2 =
    write_views-Complete v ids distinct blocks cache.shape cache cache' (rw (e1, e2) at h)
