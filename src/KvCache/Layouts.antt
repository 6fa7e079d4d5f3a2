-- ===== src/KvCache/Layouts.antt =====
-- The four loops of `_write_combined_cache`, each under the layout that it writes.
use permeant_os.Prelude.{ℕ, ◌+◌, ◌*◌, ◌/◌, ◌%◌, ◌<◌, ◌≡◌, List, [], ◌∷◌, Option, arith, ap}
use permeant_os.Py.Result.{ok, ◌>>=◌, >>=-eq-ok}
use permeant_os.KvCache.{
  Tensor, Views, token_head_dim, head_token_dim, split_token_head_dim, split_head_token_dim,
  key_value, target_block_id, combined_target_indices, or_one,
}
use permeant_os.KvCache.Loops.{for_range2}
use permeant_os.KvCache.Radix.{or_one-pos, factor_pos}
use permeant_os.KvCache.Places.{Point, Distinct, Fits}
use permeant_os.KvCache.Write.{
  write_token_head, write_head_token, write_split_token, write_split_head, write_token_head_dim,
  write_head_token_dim, write_split_token_head_dim, write_split_head_token_dim,
}
use permeant_os.KvCache.Outer.{Wrote, outer_Holds}

abbrev by_tokens : ℕ → ℕ → ℕ → ℕ → Point
by_tokens block token head dim = record { block = block; token = token; head = head; dim = dim }

abbrev by_heads : ℕ → ℕ → ℕ → ℕ → Point
by_heads block head token dim = record { block = block; token = token; head = head; dim = dim }

by_tokens-injective :
    (i j k l i' j' k' l' : ℕ)
    → by_tokens i j k l ≡ by_tokens i' j' k' l'
    → (i ≡ i') × (j ≡ j') × (k ≡ k') × (l ≡ l')
by_tokens-injective i j k l i' j' k' l' e = (
  ap (λ (p : Point). p.block) e,
  ap (λ (p : Point). p.token) e,
  ap (λ (p : Point). p.head) e,
  ap (λ (p : Point). p.dim) e,
)

by_heads-injective :
    (i j k l i' j' k' l' : ℕ)
    → by_heads i j k l ≡ by_heads i' j' k' l'
    → (i ≡ i') × (j ≡ j') × (k ≡ k') × (l ≡ l')
by_heads-injective i j k l i' j' k' l' e = (
  ap (λ (p : Point). p.block) e,
  ap (λ (p : Point). p.head) e,
  ap (λ (p : Point). p.token) e,
  ap (λ (p : Point). p.dim) e,
)

module _ {E : Type 0} (v : Views E) (ids : Option (List ℕ)) (distinct : Distinct ids) where
  pub write_token_head_dim-Complete :
      (blocks tokens : ℕ) (c c' : Tensor E)
      → write_token_head_dim v ids blocks c ≡ ok c'
      → Wrote v ids distinct blocks (token_head_dim tokens) c c'
  unfolding write_token_head_dim write_token_head combined_target_indices
  write_token_head_dim-Complete blocks tokens c c' h =
      let (same, held) =
        outer_Holds v ids distinct (token_head_dim tokens) tt blocks v.block_size v.kv_heads
          v.head_dim by_tokens
          (λ b t. for_range2 v.kv_heads v.head_dim (write_token_head v ids b t)) c c'
          (λ i j k l _ hj _ _. hj) by_tokens-injective
          (λ i j t t' _ _ e. (
            write_token_head v ids i j,
            e,
            λ k l u u' w.
                let (pair, e1, w1) = >>=-eq-ok (key_value v.source i k l j) _ w in
                let (b, e2, w2) = >>=-eq-ok (target_block_id i ids) _ w1 in
                (pair, e1, ((b ∷ 0 ∷ j ∷ k ∷ l ∷ [], b ∷ 1 ∷ j ∷ k ∷ l ∷ []), rw e2, w2)),
          ))
          h in
      record {
        shape = same;
        complete = λ p hb ht hh hd. held p.block p.token hb ht p.head p.dim hh hd;
      }

  pub write_head_token_dim-Complete :
      (blocks tokens : ℕ) (c c' : Tensor E)
      → write_head_token_dim v ids blocks c ≡ ok c'
      → Wrote v ids distinct blocks (head_token_dim tokens) c c'
  unfolding write_head_token_dim write_head_token combined_target_indices
  write_head_token_dim-Complete blocks tokens c c' h =
      let (same, held) =
        outer_Holds v ids distinct (head_token_dim tokens) tt blocks v.kv_heads v.block_size
          v.head_dim by_heads
          (λ b a. for_range2 v.block_size v.head_dim (write_head_token v ids b a)) c c'
          (λ i j k l _ _ hk _. hk) by_heads-injective
          (λ i j t t' _ _ e. (
            write_head_token v ids i j,
            e,
            λ k l u u' w.
                let (pair, e1, w1) = >>=-eq-ok (key_value v.source i j l k) _ w in
                let (b, e2, w2) = >>=-eq-ok (target_block_id i ids) _ w1 in
                (pair, e1, ((b ∷ 0 ∷ j ∷ k ∷ l ∷ [], b ∷ 1 ∷ j ∷ k ∷ l ∷ []), rw e2, w2)),
          ))
          h in
      record {
        shape = same;
        complete = λ p hb ht hh hd. held p.block p.head hb hh p.token p.dim ht hd;
      }

  -- The loop and the layout find a token of the source in the same target block.
  same_block :
      (blocks tokens i j : ℕ)
      → (0 < tokens) × (blocks * tokens ≡ v.block_size)
      → j < v.block_size
      → (i * or_one blocks + j / or_one tokens ≡ i * blocks + j / tokens)
        × (j % or_one tokens ≡ j % tokens)
  same_block blocks tokens i j (pos, whole) hj =
      let t : or_one tokens ≡ tokens = or_one-pos tokens pos in
      let b : or_one blocks ≡ blocks =
        or_one-pos blocks (factor_pos blocks tokens j (omega arith)) in
      (rw (t, b), rw t)

  pub write_split_token_head_dim-Complete :
      (blocks tokens per : ℕ) (c c' : Tensor E)
      → Fits (split_token_head_dim tokens per) v.block_size
      → write_split_token_head_dim v ids blocks tokens per c ≡ ok c'
      → Wrote v ids distinct blocks (split_token_head_dim tokens per) c c'
  unfolding write_split_token_head_dim write_split_token combined_target_indices
  write_split_token_head_dim-Complete blocks tokens per c c' fits h =
      let (same, held) =
        outer_Holds v ids distinct (split_token_head_dim tokens per) fits blocks v.block_size
          v.kv_heads v.head_dim by_tokens
          (λ i j t. target_block_id (i * per + j / tokens) ids >>= λ b.
            for_range2 v.kv_heads v.head_dim (write_split_token v ids i j b (j % tokens)) t)
          c c' (λ i j k l _ hj _ _. hj) by_tokens-injective
          (λ i j t t' hi hj e.
            let (b, e2, e3) = >>=-eq-ok (target_block_id (i * per + j / tokens) ids) _ e in
            let (eb, et) = same_block per tokens i j fits hj in
            (
              write_split_token v ids i j b (j % tokens),
              e3,
              λ k l u u' w.
                  let (pair, e1, w2) = >>=-eq-ok (key_value v.source i k l j) _ w in
                  (
                    pair,
                    e1,
                    (
                      (b ∷ 0 ∷ j % tokens ∷ k ∷ l ∷ [], b ∷ 1 ∷ j % tokens ∷ k ∷ l ∷ []),
                      rw (eb, et) (rw e2),
                      w2,
                    ),
                  ),
            ))
          h in
      record {
        shape = same;
        complete = λ p hb ht hh hd. held p.block p.token hb ht p.head p.dim hh hd;
      }

  pub write_split_head_token_dim-Complete :
      (blocks tokens per : ℕ) (c c' : Tensor E)
      → Fits (split_head_token_dim tokens per) v.block_size
      → write_split_head_token_dim v ids blocks tokens per c ≡ ok c'
      → Wrote v ids distinct blocks (split_head_token_dim tokens per) c c'
  unfolding write_split_head_token_dim write_split_head combined_target_indices
  write_split_head_token_dim-Complete blocks tokens per c c' fits h =
      let (same, held) =
        outer_Holds v ids distinct (split_head_token_dim tokens per) fits blocks v.block_size
          v.kv_heads v.head_dim by_tokens
          (λ i j t. target_block_id (i * per + j / tokens) ids >>= λ b.
            for_range2 v.kv_heads v.head_dim (write_split_head v ids i j b (j % tokens)) t)
          c c' (λ i j k l _ hj _ _. hj) by_tokens-injective
          (λ i j t t' hi hj e.
            let (b, e2, e3) = >>=-eq-ok (target_block_id (i * per + j / tokens) ids) _ e in
            let (eb, et) = same_block per tokens i j fits hj in
            (
              write_split_head v ids i j b (j % tokens),
              e3,
              λ k l u u' w.
                  let (pair, e1, w2) = >>=-eq-ok (key_value v.source i k l j) _ w in
                  (
                    pair,
                    e1,
                    (
                      (b ∷ 0 ∷ k ∷ j % tokens ∷ l ∷ [], b ∷ 1 ∷ k ∷ j % tokens ∷ l ∷ []),
                      rw (eb, et) (rw e2),
                      w2,
                    ),
                  ),
            ))
          h in
      record {
        shape = same;
        complete = λ p hb ht hh hd. held p.block p.token hb ht p.head p.dim hh hd;
      }
