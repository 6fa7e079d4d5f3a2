-- ===== src/KvCache/Total.antt =====
-- `_write_combined_cache` returns for a source that can be read and a cache with room for it.
use permeant_os.Prelude.{
  ℕ, ◌+◌, ◌*◌, ◌/◌, ◌%◌, ◌<◌, ◌≡◌, ◌∙◌, ap, sym, refl, true, List, [], ◌∷◌, Option, arith,
  if◌then◌else◌, subst,
}
use permeant_os.Py.Result.{ok, ◌>>=◌}
use native.Mathlib.Nat.{div-lt_iff_lt-mul, mod-lt}
use permeant_os.KvCache.{
  Index, Tensor, Views, split_token_head_dim, split_head_token_dim, key_value, target_block_id,
}
use permeant_os.KvCache.Loops.{for_range2, for_range2_total}
use permeant_os.KvCache.Radix.{radix_lt}
use permeant_os.KvCache.Places.{Fits}
use permeant_os.KvCache.Write.{
  same_index, in_bounds, put, put_pair, write_token_head, write_head_token, write_split_token,
  write_split_head, write_token_head_dim, write_head_token_dim, write_split_token_head_dim,
  write_split_head_token_dim,
}

module _ {E : Type 0} where
  pub put-total :
      (index : Index) (x : E) (shape : List ℕ) (c : Tensor E)
      → in_bounds index shape ≡ true
      → c.shape ≡ shape
      → (c' : Tensor E) × (put index x c ≡ ok c') × (c'.shape ≡ shape)
  unfolding put
  put-total index x shape c inside same =
      let there : in_bounds index c.shape ≡ true = ap (in_bounds index) same ∙ inside in
      (
        record c { cells = λ other. if same_index index other then x else c.cells other },
        rw there refl,
        same,
      )

  put_pair-total :
      (k v : Index) (kv : E × E) (shape : List ℕ) (c : Tensor E)
      → in_bounds k shape ≡ true
      → in_bounds v shape ≡ true
      → c.shape ≡ shape
      → (c' : Tensor E) × (put_pair k v kv c ≡ ok c') × (c'.shape ≡ shape)
  unfolding put_pair
  put_pair-total k v (x, y) shape c hk hv same =
      let (t, e, q) = put-total k x shape c hk same in
      let (c', e', q') = put-total v y shape t hv q in (c', rw e e', q')

  module _ (v : Views E) (ids : Option (List ℕ)) where
    -- Every point of the source can be read.
    abbrev pub Readable : ℕ → Type 0
    Readable blocks =
        (b h d t : ℕ)
        → b < blocks
        → h < v.kv_heads
        → d < v.head_dim
        → t < v.block_size
        → (pair : E × E) × (key_value v.source b h d t ≡ ok pair)

    -- Every logical block has a block of the cache.
    abbrev pub Room : ℕ → ℕ → Type 0
    Room count size = (i : ℕ) → i < count → (b : ℕ) × (target_block_id i ids ≡ ok b) × (b < size)

    module _ (blocks s0 : ℕ) (readable : Readable blocks) where
      pub write_token_head_dim-total :
          (c : Tensor E)
          → Room blocks s0
          → c.shape ≡ s0 ∷ 2 ∷ v.block_size ∷ v.kv_heads ∷ v.head_dim ∷ []
          → (c' : Tensor E) × (write_token_head_dim v ids blocks c ≡ ok c')
      unfolding write_token_head_dim write_token_head in_bounds
      write_token_head_dim-total c room shaped =
          let P : Tensor E → Type 0 =
            λ t. t.shape ≡ s0 ∷ 2 ∷ v.block_size ∷ v.kv_heads ∷ v.head_dim ∷ [] in
          let (c', e, _) =
            for_range2_total blocks v.block_size
              (λ b t. for_range2 v.kv_heads v.head_dim (write_token_head v ids b t)) P c
              (λ b t u hb ht p.
                for_range2_total v.kv_heads v.head_dim (write_token_head v ids b t) P u
                  (λ h d w hh hd q.
                    let (pair, e1) = readable b h d t hb hh hd ht in
                    let (tb, e2, lt) = room b hb in
                    let (w', e3, q') =
                      put_pair-total (tb ∷ 0 ∷ t ∷ h ∷ d ∷ []) (tb ∷ 1 ∷ t ∷ h ∷ d ∷ []) pair _ w
                        (ground arith) (ground arith) q in
                    (w', rw (e1, e2) e3, q'))
                  p)
              shaped in
          (c', e)

      pub write_head_token_dim-total :
          (c : Tensor E)
          → Room blocks s0
          → c.shape ≡ s0 ∷ 2 ∷ v.kv_heads ∷ v.block_size ∷ v.head_dim ∷ []
          → (c' : Tensor E) × (write_head_token_dim v ids blocks c ≡ ok c')
      unfolding write_head_token_dim write_head_token in_bounds
      write_head_token_dim-total c room shaped =
          let P : Tensor E → Type 0 =
            λ t. t.shape ≡ s0 ∷ 2 ∷ v.kv_heads ∷ v.block_size ∷ v.head_dim ∷ [] in
          let (c', e, _) =
            for_range2_total blocks v.kv_heads
              (λ b h. for_range2 v.block_size v.head_dim (write_head_token v ids b h)) P c
              (λ b h u hb hh p.
                for_range2_total v.block_size v.head_dim (write_head_token v ids b h) P u
                  (λ t d w ht hd q.
                    let (pair, e1) = readable b h d t hb hh hd ht in
                    let (tb, e2, lt) = room b hb in
                    let (w', e3, q') =
                      put_pair-total (tb ∷ 0 ∷ h ∷ t ∷ d ∷ []) (tb ∷ 1 ∷ h ∷ t ∷ d ∷ []) pair _ w
                        (ground arith) (ground arith) q in
                    (w', rw (e1, e2) e3, q'))
                  p)
              shaped in
          (c', e)

      -- the target block of a token that a split layout computes
      split-Room :
          (tokens per b t : ℕ)
          → Room (blocks * per) s0
          → (0 < tokens) × (per * tokens ≡ v.block_size)
          → b < blocks
          → t < v.block_size
          → (tb : ℕ) × (target_block_id (b * per + t / tokens) ids ≡ ok tb) × (tb < s0)
      split-Room tokens per b t room (pos, whole) hb ht = room (b * per + t / tokens) (
          radix_lt b blocks (t / tokens) per hb
            ((div-lt_iff_lt-mul pos).1 (subst (λ x. t < x) (sym whole) ht)))

      pub write_split_token_head_dim-total :
          (tokens per : ℕ) (c : Tensor E)
          → Fits (split_token_head_dim tokens per) v.block_size
          → Room (blocks * per) s0
          → c.shape ≡ s0 ∷ 2 ∷ tokens ∷ v.kv_heads ∷ v.head_dim ∷ []
          → (c' : Tensor E) × (write_split_token_head_dim v ids blocks tokens per c ≡ ok c')
      unfolding write_split_token_head_dim write_split_token in_bounds
      write_split_token_head_dim-total tokens per c fits room shaped =
          let P : Tensor E → Type 0 =
            λ t. t.shape ≡ s0 ∷ 2 ∷ tokens ∷ v.kv_heads ∷ v.head_dim ∷ [] in
          let (c', e, _) =
            for_range2_total blocks v.block_size
              (λ b t u. target_block_id (b * per + t / tokens) ids >>= λ tb.
                for_range2 v.kv_heads v.head_dim (write_split_token v ids b t tb (t % tokens)) u)
              P c
              (λ b t u hb ht p.
                let (tb, e2, lt) = split-Room tokens per b t room fits hb ht in
                let inside : t % tokens < tokens = mod-lt t fits.0 in
                let (u', e, q) =
                  for_range2_total v.kv_heads v.head_dim
                    (write_split_token v ids b t tb (t % tokens)) P u
                    (λ h d w hh hd q.
                      let (pair, e1) = readable b h d t hb hh hd ht in
                      let (w', e3, q') =
                        put_pair-total (tb ∷ 0 ∷ t % tokens ∷ h ∷ d ∷ [])
                          (tb ∷ 1 ∷ t % tokens ∷ h ∷ d ∷ []) pair _ w (ground arith) (ground arith)
                          q in
                      (w', rw e1 e3, q'))
                    p in
                (u', rw e2 e, q))
              shaped in
          (c', e)

      pub write_split_head_token_dim-total :
          (tokens per : ℕ) (c : Tensor E)
          → Fits (split_head_token_dim tokens per) v.block_size
          → Room (blocks * per) s0
          → c.shape ≡ s0 ∷ 2 ∷ v.kv_heads ∷ tokens ∷ v.head_dim ∷ []
          → (c' : Tensor E) × (write_split_head_token_dim v ids blocks tokens per c ≡ ok c')
      unfolding write_split_head_token_dim write_split_head in_bounds
      write_split_head_token_dim-total tokens per c fits room shaped =
          let P : Tensor E → Type 0 =
            λ t. t.shape ≡ s0 ∷ 2 ∷ v.kv_heads ∷ tokens ∷ v.head_dim ∷ [] in
          let (c', e, _) =
            for_range2_total blocks v.block_size
              (λ b t u. target_block_id (b * per + t / tokens) ids >>= λ tb.
                for_range2 v.kv_heads v.head_dim (write_split_head v ids b t tb (t % tokens)) u)
              P c
              (λ b t u hb ht p.
                let (tb, e2, lt) = split-Room tokens per b t room fits hb ht in
                let inside : t % tokens < tokens = mod-lt t fits.0 in
                let (u', e, q) =
                  for_range2_total v.kv_heads v.head_dim
                    (write_split_head v ids b t tb (t % tokens)) P u
                    (λ h d w hh hd q.
                      let (pair, e1) = readable b h d t hb hh hd ht in
                      let (w', e3, q') =
                        put_pair-total (tb ∷ 0 ∷ h ∷ t % tokens ∷ d ∷ [])
                          (tb ∷ 1 ∷ h ∷ t % tokens ∷ d ∷ []) pair _ w (ground arith) (ground arith)
                          q in
                      (w', rw e1 e3, q'))
                    p in
                (u', rw e2 e, q))
              shaped in
          (c', e)
