-- ===== src/KvCache/Outer.antt =====
-- Two loops in two loops, each round of which writes a point: they keep the shape of the cache and
-- leave every point in it.
use permeant_os.Prelude.{ℕ, ◌<◌, ◌≡◌, inl, inr, refl, ◌∙◌, List, Option}
use permeant_os.Py.Result.{Result, ok}
use permeant_os.KvCache.{Tensor, Views, Layout}
use permeant_os.KvCache.Loops.{for_range2, for_range2_keeps, for_range2_establishes}
use permeant_os.KvCache.Places.{Point, Distinct, Fits}
use permeant_os.KvCache.Written.{Holds, Writes, Writes-shape, inner_keeps, inner_Holds}

module _ {E : Type 0} (v : Views E) (ids : Option (List ℕ)) (distinct : Distinct ids) where
  -- Every point of the source is in the cache.
  abbrev pub Complete : ℕ → Layout → Tensor E → Type 0
  Complete blocks layout c =
      (p : Point)
      → p.block < blocks
      → p.token < v.block_size
      → p.head < v.kv_heads
      → p.dim < v.head_dim
      → Holds v.source layout ids p c

  -- A write that keeps the shape of the cache, and leaves every point in it.
  pub record Wrote (blocks : ℕ) (layout : Layout) (c c' : Tensor E) : Type 0 where
    pub shape : c'.shape ≡ c.shape
    pub complete : Complete blocks layout c'

  module _ (layout : Layout) (fits : Fits layout v.block_size) (n1 n2 n3 n4 : ℕ)
      (point : ℕ → ℕ → ℕ → ℕ → Point) (body : ℕ → ℕ → Tensor E → Result (Tensor E)) where
    -- The body runs an inner loop, each round of which writes the round's point.
    abbrev Inner : ℕ → ℕ → Tensor E → Tensor E → Type 0
    Inner i j c c' =
        (inner : ℕ → ℕ → Tensor E → Result (Tensor E)) × (for_range2 n3 n4 inner c ≡ ok c')
        × ((k l : ℕ) (t t' : Tensor E)
            → inner k l t ≡ ok t'
            → Writes v.source layout ids (point i j k l) t t')

    pub outer_Holds :
        (c c' : Tensor E)
        → ((i j k l : ℕ) → i < n1 → j < n2 → k < n3 → l < n4 → (point i j k l).token < v.block_size)
        → ((i j k l i' j' k' l' : ℕ)
            → point i j k l ≡ point i' j' k' l'
            → (i ≡ i') × (j ≡ j') × (k ≡ k') × (l ≡ l'))
        → ((i j : ℕ) (t t' : Tensor E) → i < n1 → j < n2 → body i j t ≡ ok t' → Inner i j t t')
        → for_range2 n1 n2 body c ≡ ok c'
        → (c'.shape ≡ c.shape)
          × ((i j : ℕ)
              → i < n1
              → j < n2
              → (k l : ℕ) → k < n3
              → l < n4
              → Holds v.source layout ids (point i j k l) c')
    outer_Holds c c' inside injective runs all = (
      for_range2_keeps n1 n2 body (λ t. t.shape ≡ c.shape) c c'
          (λ i j t t' hi hj h.
            let (inner, e, w) = runs i j t t' hi hj h in
            for_range2_keeps n3 n4 inner (λ u. u.shape ≡ c.shape) t t'
              (λ k l u u' _ _ step same.
                Writes-shape v.source layout ids (point i j k l) u u' (w k l u u' step) ∙ same)
              e)
          all refl,
      for_range2_establishes n1 n2 body
          (λ i j t. (k l : ℕ) → k < n3 → l < n4 → Holds v.source layout ids (point i j k l) t) c c'
          (λ i j t t' hi hj h.
            let (inner, e, w) = runs i j t t' hi hj h in
            inner_Holds v.source layout ids v.block_size fits distinct n3 n4 (point i j) inner
              (λ k l hk hl. inside i j k l hi hj hk hl) w t t'
              (λ k l k' l' ne same.
                let (_, _, a, b) = injective i j k l i j k' l' same in
                elim ne [ inl x ↦ x a | inr x ↦ x b ])
              e)
          (λ i j i' j' t t' hi hj hi' hj' ne h held k l hk hl.
            let (inner, e, w) = runs i j t t' hi hj h in
            inner_keeps v.source layout ids v.block_size fits distinct n3 n4 (point i j) inner
              (λ a b ha hb. inside i j a b hi hj ha hb) w (point i' j' k l) t t'
              (inside i' j' k l hi' hj' hk hl)
              (λ a b same.
                let (x, y, _, _) = injective i j a b i' j' k l same in
                elim ne [ inl z ↦ z x | inr z ↦ z y ])
              e (held k l hk hl))
          all,
    )
