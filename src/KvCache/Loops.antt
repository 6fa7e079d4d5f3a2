-- ===== src/KvCache/Loops.antt =====
-- `for i in range(n)` over a state, with a body that may raise, and its rules.
use permeant_os.Prelude.{refl, ℕ, zero, suc, ◌+◌, ◌<◌, ◌≤◌, ◌≡◌, ◌≢◌, ◌⊎◌, inl, inr, arith, subst}
use permeant_os.Py.Result.{Result, ok, ◌>>=◌, >>=-eq-ok, ok-injective}
use native.Mathlib.Decide.{ℕ_discrete}

module _ {ℓ} {S : Type ℓ} where
  -- the rounds `i`, …, `i + n - 1`
  unfoldable pub for_range : ℕ → ℕ → (ℕ → S → Result S) → S → Result S
  for_range zero i body s = ok s
  for_range (suc n) i body s = body i s >>= for_range n (suc i) body

  -- What every round keeps, the loop keeps.
  pub for_range_keeps {κ} :
      (n i : ℕ) (body : ℕ → S → Result S) (P : S → Type κ) (s s' : S)
      → ((j : ℕ) (t t' : S) → i ≤ j → j < i + n → body j t ≡ ok t' → P t → P t')
      → for_range n i body s ≡ ok s'
      → P s
      → P s'
  unfolding for_range
  for_range_keeps zero i body P s s' keep h p = subst P (ok-injective s s' h) p
  for_range_keeps (suc n) i body P s s' keep h p =
      let (t, e, h1) = >>=-eq-ok (body i s) _ h in
      for_range_keeps n (suc i) body P t s'
        (λ j u u' lo hi. keep j u u' (omega arith) (omega arith)) h1
        (keep i s t (omega arith) (omega arith) e p)

  -- What a round establishes and the other rounds keep holds of every round at the end.
  pub for_range_establishes {κ} :
      (n i : ℕ) (body : ℕ → S → Result S) (P : ℕ → S → Type κ) (s s' : S)
      → ((j : ℕ) (t t' : S) → i ≤ j → j < i + n → body j t ≡ ok t' → P j t')
      → ((j k : ℕ) (t t' : S)
          → i ≤ j
          → j < i + n
          → i ≤ k
          → k < i + n
          → j ≢ k
          → body j t ≡ ok t'
          → P k t
          → P k t')
      → for_range n i body s ≡ ok s'
      → (k : ℕ) → i ≤ k
      → k < i + n
      → P k s'
  unfolding for_range
  for_range_establishes zero i body P s s' make keep h k lo hi = absurd (omega arith)
  for_range_establishes (suc n) i body P s s' make keep h k lo hi =
      let (t, e, h1) = >>=-eq-ok (body i s) _ h in
      elim (ℕ_discrete i k) [
        | yes here ↦
            for_range_keeps n (suc i) body (P k) t s'
              (λ j u u' l r. keep j k u u' (omega arith) (omega arith) lo hi (omega arith)) h1
              (subst (λ x. P x t) here (make i s t (omega arith) (omega arith) e))
        | no there ↦
            for_range_establishes n (suc i) body P t s'
              (λ j u u' l r. make j u u' (omega arith) (omega arith))
              (λ j m u u' l r l' r'.
                keep j m u u' (omega arith) (omega arith) (omega arith) (omega arith))
              h1 k (omega arith) (omega arith)
      ]

  -- Two loops, one in the other.
  abbrev pub for_range2 : ℕ → ℕ → (ℕ → ℕ → S → Result S) → S → Result S
  for_range2 n m body = for_range n 0 (λ i. for_range m 0 (body i))

  pub for_range2_keeps {κ} :
      (n m : ℕ) (body : ℕ → ℕ → S → Result S) (P : S → Type κ) (s s' : S)
      → ((i j : ℕ) (t t' : S) → i < n → j < m → body i j t ≡ ok t' → P t → P t')
      → for_range2 n m body s ≡ ok s'
      → P s
      → P s'
  for_range2_keeps n m body P s s' keep =
      for_range_keeps n 0 (λ i. for_range m 0 (body i)) P s s'
        (λ i t t' _ hi.
          for_range_keeps m 0 (body i) P t t'
            (λ j u u' _ hj. keep i j u u' (omega arith) (omega arith)))

  pub for_range2_establishes {κ} :
      (n m : ℕ) (body : ℕ → ℕ → S → Result S) (P : ℕ → ℕ → S → Type κ) (s s' : S)
      → ((i j : ℕ) (t t' : S) → i < n → j < m → body i j t ≡ ok t' → P i j t')
      → ((i j k l : ℕ) (t t' : S)
          → i < n
          → j < m
          → k < n
          → l < m
          → ((i ≢ k) ⊎ (j ≢ l))
          → body i j t ≡ ok t'
          → P k l t
          → P k l t')
      → for_range2 n m body s ≡ ok s'
      → (k l : ℕ) → k < n
      → l < m
      → P k l s'
  for_range2_establishes n m body P s s' make keep h k l hk hl =
      for_range_establishes n 0 (λ i. for_range m 0 (body i)) (λ i t. (j : ℕ) → j < m → P i j t) s
        s'
        (λ i t t' _ hi h1 j hj.
          for_range_establishes m 0 (body i) (P i) t t'
            (λ a u u' _ ha. make i a u u' (omega arith) (omega arith))
            (λ a b u u' _ ha _ hb ne.
              keep i a i b u u' (omega arith) (omega arith) (omega arith) (omega arith) (inr ne))
            h1 j (omega arith) (omega arith))
        (λ i j t t' _ hi _ hj ne h1 p a ha.
          for_range_keeps m 0 (body i) (P j a) t t'
            (λ b u u' _ hb.
              keep i b j a u u' (omega arith) (omega arith) (omega arith) (omega arith) (inl ne))
            h1 (p a ha))
        h k (omega arith) (omega arith) l hl

  -- Where each round returns and keeps a property, so does the loop.
  pub for_range_total {κ} :
      (n i : ℕ) (body : ℕ → S → Result S) (P : S → Type κ) (s : S)
      → ((j : ℕ) (t : S) → i ≤ j → j < i + n → P t → (t' : S) × (body j t ≡ ok t') × P t')
      → P s
      → (s' : S) × (for_range n i body s ≡ ok s') × P s'
  unfolding for_range
  for_range_total zero i body P s step p = (s, refl, p)
  for_range_total (suc n) i body P s step p =
      let (t, e, q) = step i s (omega arith) (omega arith) p in
      let (s', h, r) =
        for_range_total n (suc i) body P t (λ j u lo hi. step j u (omega arith) (omega arith)) q in
      (s', rw e h, r)

  pub for_range2_total {κ} :
      (n m : ℕ) (body : ℕ → ℕ → S → Result S) (P : S → Type κ) (s : S)
      → ((i j : ℕ) (t : S) → i < n → j < m → P t → (t' : S) × (body i j t ≡ ok t') × P t')
      → P s
      → (s' : S) × (for_range2 n m body s ≡ ok s') × P s'
  for_range2_total n m body P s step p =
      for_range_total n 0 (λ i. for_range m 0 (body i)) P s
        (λ i t _ hi q.
          for_range_total m 0 (body i) P t (λ j u _ hj r. step i j u (omega arith) (omega arith) r)
            q)
        p
