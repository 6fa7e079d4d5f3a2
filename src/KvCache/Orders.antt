-- ===== src/KvCache/Orders.antt =====
-- The loops of `_write_separate_cache` under the two orders of a cache.
use permeant_os.Prelude.{
  ℕ, ◌<◌, ◌≡◌, ◌∙◌, ◌⊎◌, inl, inr, refl, sym, Bool-cases, true, String, List, [], ◌∷◌, arith, subst,
}
use permeant_os.Py.Result.{ok}
use permeant_os.KvCache.{Tensor}
use permeant_os.KvCache.Separate.{Order, has_order, fill_either}
use permeant_os.KvCache.Filled.{Filled, fill-Filled, fill-total}

module _ {E : Type 0} where
  abbrev pub HasShape : Order E → List ℕ → ℕ → Type 0
  HasShape o shape s0 = shape ≡ s0 ∷ o.second ∷ o.third ∷ o.fourth ∷ []

  -- The cache has one of two shapes, and at all its indices the elements of that order.
  abbrev pub Stored : Order E → Order E → List ℕ → ℕ → Tensor E → Type 0
  Stored one two shape s0 c =
      (HasShape one shape s0 × Filled one.element s0 one.second one.third one.fourth c)
      ⊎ (HasShape two shape s0 × Filled two.element s0 two.second two.third two.fourth c)

  -- Every element of an order can be read, for the blocks of a cache.
  abbrev pub AllRead : Order E → ℕ → Type 0
  AllRead o s0 =
      (i j k l : ℕ)
      → i < s0
      → j < o.second
      → k < o.third
      → l < o.fourth
      → (x : E) × (o.element i j k l ≡ ok x)

  module _ (message : String) (one two : Order E) where
    has_order-HasShape :
        (o : Order E) (s0 s1 s2 s3 : ℕ)
        → has_order o s1 s2 s3 ≡ true
        → HasShape o (s0 ∷ s1 ∷ s2 ∷ s3 ∷ []) s0
    has_order-HasShape o s0 s1 s2 s3 h =
        let e1 : s1 ≡ o.second = ground arith in
        let e2 : s2 ≡ o.third = ground arith in
        let e3 : s3 ≡ o.fourth = ground arith in cc (e1, e2, e3)

    HasShape-has_order :
        (o : Order E) (s0 s1 s2 s3 : ℕ)
        → HasShape o (s0 ∷ s1 ∷ s2 ∷ s3 ∷ []) s0
        → has_order o s1 s2 s3 ≡ true
    HasShape-has_order o s0 s1 s2 s3 e =
        let e1 : s1 ≡ o.second = cc e in
        let e2 : s2 ≡ o.third = cc e in let e3 : s3 ≡ o.fourth = cc e in ground arith

    fill_either-Stored :
        (shape : List ℕ) (c c' : Tensor E)
        → fill_either message one two shape c ≡ ok c'
        → (s0 : ℕ) × Stored one two shape s0 c'
    unfolding fill_either
    fill_either-Stored [] c c' h = cc h
    fill_either-Stored (s0 ∷ []) c c' h = cc h
    fill_either-Stored (s0 ∷ s1 ∷ []) c c' h = cc h
    fill_either-Stored (s0 ∷ s1 ∷ s2 ∷ []) c c' h = cc h
    fill_either-Stored (s0 ∷ s1 ∷ s2 ∷ s3 ∷ []) c c' h =
        elim (Bool-cases (has_order one s1 s2 s3)) [
          | inl yes1 ↦ (
            s0,
            inl (
              has_order-HasShape one s0 s1 s2 s3 yes1,
              fill-Filled one.element s0 one.second one.third one.fourth c c' (rw yes1 at h),
            ),
          )
          | inr no1 ↦ elim (Bool-cases (has_order two s1 s2 s3)) [
            | inl yes2 ↦ (
              s0,
              inr (
                has_order-HasShape two s0 s1 s2 s3 yes2,
                fill-Filled two.element s0 two.second two.third two.fourth c c'
                    (rw (no1, yes2) at h),
              ),
            )
            | inr no2 ↦ cc (rw (no1, no2) at h)
          ]
        ]
    fill_either-Stored (s0 ∷ s1 ∷ s2 ∷ s3 ∷ s4 ∷ shape) c c' h = cc h

    fill_either-total :
        (s0 s1 s2 s3 : ℕ) (c : Tensor E)
        → HasShape one (s0 ∷ s1 ∷ s2 ∷ s3 ∷ []) s0 ⊎ HasShape two (s0 ∷ s1 ∷ s2 ∷ s3 ∷ []) s0
        → c.shape ≡ s0 ∷ s1 ∷ s2 ∷ s3 ∷ []
        → AllRead one s0
        → AllRead two s0
        → (c' : Tensor E) × (fill_either message one two (s0 ∷ s1 ∷ s2 ∷ s3 ∷ []) c ≡ ok c')
    unfolding fill_either
    fill_either-total s0 s1 s2 s3 c known shaped r1 r2 =
        elim (Bool-cases (has_order one s1 s2 s3)) [
          | inl yes1 ↦ rw yes1 (
              fill-total one.element s0 one.second one.third one.fourth c
                (shaped ∙ has_order-HasShape one s0 s1 s2 s3 yes1) r1)
          | inr no1 ↦ elim (Bool-cases (has_order two s1 s2 s3)) [
            | inl yes2 ↦
                rw (no1, yes2)
                  (fill-total two.element s0 two.second two.third two.fourth c
                    (shaped ∙ has_order-HasShape two s0 s1 s2 s3 yes2) r2)
            | inr no2 ↦ absurd (elim known [
              | inl e ↦ cc (no1, HasShape-has_order one s0 s1 s2 s3 e)
              | inr e ↦ cc (no2, HasShape-has_order two s0 s1 s2 s3 e)
            ])
          ]
        ]

    pub fill_either-written :
        (shape : List ℕ) (s0 : ℕ) (c : Tensor E)
        → HasShape one shape s0 ⊎ HasShape two shape s0
        → c.shape ≡ shape
        → AllRead one s0
        → AllRead two s0
        → (c' : Tensor E) × (fill_either message one two shape c ≡ ok c')
    fill_either-written shape s0 c known shaped r1 r2 = elim known [
      | inl e ↦
          subst (λ x. (c' : Tensor E) × (fill_either message one two x c ≡ ok c')) (sym e)
            (fill_either-total s0 one.second one.third one.fourth c (inl refl) (shaped ∙ e) r1 r2)
      | inr e ↦
          subst (λ x. (c' : Tensor E) × (fill_either message one two x c ≡ ok c')) (sym e)
            (fill_either-total s0 two.second two.third two.fourth c (inr refl) (shaped ∙ e) r1 r2)
    ]

    -- The number of blocks that is written is the first number of the shape.
    pub fill_either-Blocks :
        (shape : List ℕ) (s0 : ℕ) (c c' : Tensor E)
        → HasShape one shape s0 ⊎ HasShape two shape s0
        → fill_either message one two shape c ≡ ok c'
        → Stored one two shape s0 c'
    fill_either-Blocks shape s0 c c' known h =
        let (n, stored) = fill_either-Stored shape c c' h in
        let (rest, k) : (rest : List ℕ) × (shape ≡ n ∷ rest) = elim stored [
          | inl (k, _) ↦ (_, k)
          | inr (k, _) ↦ (_, k)
        ] in
        let same : n ≡ s0 = elim known [ inl e ↦ cc (e, k) | inr e ↦ cc (e, k) ] in
        subst (λ x. Stored one two shape x c') same stored
