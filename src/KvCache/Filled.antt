-- ===== src/KvCache/Filled.antt =====
-- The four loops of `_write_separate_cache`: what they leave in the cache, and when they return.
use permeant_os.Prelude.{ℕ, ◌<◌, ◌≡◌, ◌≢◌, ◌⊎◌, inl, inr, ◌∙◌, [], ◌∷◌, true, arith}
use permeant_os.Py.Result.{Result, ok, >>=-eq-ok}
use permeant_os.KvCache.{Tensor}
use permeant_os.KvCache.Loops.{
  for_range2, for_range2_keeps, for_range2_establishes, for_range2_total,
}
use permeant_os.KvCache.Write.{value_at, in_bounds}
use permeant_os.KvCache.Written.{put-value_at}
use permeant_os.KvCache.Total.{put-total}
use permeant_os.KvCache.Separate.{fill_one, fill}

module _ {E : Type 0} (element : ℕ → ℕ → ℕ → ℕ → Result E) where
  -- The element of a point is there, and the cache holds it.
  pub record HoldsAt (i j k l : ℕ) (c : Tensor E) : Type 0 where
    pub found : E
    pub at : element i j k l ≡ ok found
    pub held : value_at (i ∷ j ∷ k ∷ l ∷ []) c ≡ ok found

  fill_one-HoldsAt :
      (i j k l : ℕ) (c c' : Tensor E) → fill_one element i j k l c ≡ ok c' → HoldsAt i j k l c'
  unfolding fill_one
  fill_one-HoldsAt i j k l c c' h =
      let (x, e, w) = >>=-eq-ok (element i j k l) _ h in
      record { found = x; at = e; held = (put-value_at _ x c c' w).1 }

  fill_one-keeps :
      (i j k l a b m n : ℕ) (c c' : Tensor E)
      → ((i ≢ a) ⊎ (j ≢ b)) ⊎ ((k ≢ m) ⊎ (l ≢ n))
      → fill_one element i j k l c ≡ ok c'
      → HoldsAt a b m n c
      → HoldsAt a b m n c'
  unfolding fill_one
  fill_one-keeps i j k l a b m n c c' apart h p =
      let (x, e, w) = >>=-eq-ok (element i j k l) _ h in
      let other : i ∷ j ∷ k ∷ l ∷ [] ≢ a ∷ b ∷ m ∷ n ∷ [] = λ same. elim apart [
        | inl (inl d) ↦ d (cc same)
        | inl (inr d) ↦ d (cc same)
        | inr (inl d) ↦ d (cc same)
        | inr (inr d) ↦ d (cc same)
      ] in
      record { found = p.found; at = p.at; held = (put-value_at _ x c c' w).2 _ other ∙ p.held }

  -- Every point of the loops.
  abbrev pub Filled : ℕ → ℕ → ℕ → ℕ → Tensor E → Type 0
  Filled n1 n2 n3 n4 c =
      (i j : ℕ) → i < n1 → j < n2 → (k l : ℕ) → k < n3 → l < n4 → HoldsAt i j k l c

  pub fill-Filled :
      (n1 n2 n3 n4 : ℕ) (c c' : Tensor E)
      → fill element n1 n2 n3 n4 c ≡ ok c'
      → Filled n1 n2 n3 n4 c'
  unfolding fill
  fill-Filled n1 n2 n3 n4 c c' h =
      for_range2_establishes n1 n2 (λ i j. for_range2 n3 n4 (fill_one element i j))
        (λ i j t. (k l : ℕ) → k < n3 → l < n4 → HoldsAt i j k l t) c c'
        (λ i j t t' _ _ e.
          for_range2_establishes n3 n4 (fill_one element i j) (HoldsAt i j) t t'
            (λ k l u u' _ _. fill_one-HoldsAt i j k l u u')
            (λ k l m n u u' _ _ _ _ ne. fill_one-keeps i j k l i j m n u u' (inr ne)) e)
        (λ i j a b t t' _ _ _ _ ne e p k l hk hl.
          for_range2_keeps n3 n4 (fill_one element i j) (HoldsAt a b k l) t t'
            (λ m n u u' _ _. fill_one-keeps i j m n a b k l u u' (inl ne)) e (p k l hk hl))
        h

  -- The loops return if every element is there.
  pub fill-total :
      (n1 n2 n3 n4 : ℕ) (c : Tensor E)
      → c.shape ≡ n1 ∷ n2 ∷ n3 ∷ n4 ∷ []
      → ((i j k l : ℕ) → i < n1 → j < n2 → k < n3 → l < n4 → (x : E) × (element i j k l ≡ ok x))
      → (c' : Tensor E) × (fill element n1 n2 n3 n4 c ≡ ok c')
  unfolding fill fill_one in_bounds
  fill-total n1 n2 n3 n4 c shaped there =
      let P : Tensor E → Type 0 = λ t. t.shape ≡ n1 ∷ n2 ∷ n3 ∷ n4 ∷ [] in
      let (c', e, _) =
        for_range2_total n1 n2 (λ i j. for_range2 n3 n4 (fill_one element i j)) P c
          (λ i j t hi hj. for_range2_total n3 n4 (fill_one element i j) P t (λ k l u hk hl q.
            let (x, e) = there i j k l hi hj hk hl in
            let inside : in_bounds (i ∷ j ∷ k ∷ l ∷ []) (n1 ∷ n2 ∷ n3 ∷ n4 ∷ []) ≡ true =
              ground arith in
            let (u', w, q') = put-total (i ∷ j ∷ k ∷ l ∷ []) x _ u inside q in (u', rw e w, q')))
          shaped in
      (c', e)
