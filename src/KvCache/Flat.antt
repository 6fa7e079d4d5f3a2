-- ===== src/KvCache/Flat.antt =====
-- `_flat_key_value`: the offsets of a flat tensor lie in its data, and are those of no other point.
use permeant_os.Prelude.{
  All, All-imp, ℕ, zero, suc, ◌+◌, ◌*◌, ◌<◌, ◌≡◌, refl, List, [], ◌∷◌, ◌++◌, arith, ap, sym, ◌∙◌,
  length, get_elem?,
}
use permeant_os.Py.Result.{◌>>=◌, >>=-assoc}
use permeant_os.KvCache.{
  offset, flat_item, nested_item, Blocks, or_raise, item, key_value, nested, flat,
}
use permeant_os.KvCache.Radix.{radix, radix_lt}

-- The offsets of points of the shape are below its size, and different points have different offsets.
pub offset_bounds :
    (s0 s1 s2 s3 a b c d : ℕ)
    → a < s0
    → b < s1
    → c < s2
    → d < s3
    → (offset s1 s2 s3 a b c d < s0 * s1 * s2 * s3)
      × ((a' b' c' d' : ℕ)
          → b' < s1
          → c' < s2
          → d' < s3
          → offset s1 s2 s3 a b c d ≡ offset s1 s2 s3 a' b' c' d'
          → (a ≡ a') × (b ≡ b') × (c ≡ c') × (d ≡ d'))
offset_bounds s0 s1 s2 s3 a b c d ha hb hc hd = (
  radix_lt ((a * s1 + b) * s2 + c) (s0 * s1 * s2) d s3
      (radix_lt (a * s1 + b) (s0 * s1) c s2 (radix_lt a s0 b s1 ha hb) hc) hd,
  λ a' b' c' d' hb' hc' hd' e.
      let (e3, ed) = radix s3 ((a * s1 + b) * s2 + c) ((a' * s1 + b') * s2 + c') d d' hd hd' e in
      let (e2, ec) = radix s2 (a * s1 + b) (a' * s1 + b') c c' hc hc' e3 in
      let (ea, eb) = radix s1 a a' b b' hb hb' e2 in (ea, eb, ec, ed),
)

module _ {ℓ} {A : Type ℓ} where
  abbrev pub concat : List (List A) → List A
  concat [] = []
  concat (x ∷ xs) = x ++ concat xs

  get-append_left :
      (xs ys : List A) (i : ℕ) → i < length xs → get_elem? (xs ++ ys) i ≡ get_elem? xs i
  get-append_left [] ys i h = absurd (omega arith)
  get-append_left (x ∷ xs) ys zero h = refl
  get-append_left (x ∷ xs) ys (suc i) h = get-append_left xs ys i (omega arith)

  get-append_right :
      (xs ys : List A) (i k : ℕ) → k ≡ length xs + i → get_elem? (xs ++ ys) k ≡ get_elem? ys i
  get-append_right [] ys i k e = ap (get_elem? ys) (omega arith)
  get-append_right (x ∷ xs) ys i zero e = absurd (omega arith)
  get-append_right (x ∷ xs) ys i (suc k) e = get-append_right xs ys i k (omega arith)

  -- Every row has `m` elements.
  abbrev Rows : ℕ → List (List A) → Type 0
  Rows m xs = All (λ r. length r ≡ m) xs

  pub item-concat :
      (xs : List (List A)) (m a b : ℕ)
      → Rows m xs
      → b < m
      → item (concat xs) (a * m + b) ≡ (do r ← item xs a; item r b)
  item-concat [] m a b h lt = refl
  item-concat (x ∷ xs) m zero b h lt = ap or_raise (
      ap (get_elem? (x ++ concat xs)) (omega arith)
      ∙ get-append_left x (concat xs) b (omega (arith, h.0)))
  item-concat (x ∷ xs) m (suc a) b h lt =
      let e : suc a * m + b ≡ m + (a * m + b) = grind arith in
      ap or_raise (
        get-append_right x (concat xs) (a * m + b) (suc a * m + b)
          (e ∙ ap (λ n. n + (a * m + b)) (sym h.0)))
      ∙ item-concat xs m a b h.1 lt

All-append {ℓ κ} :
    {A : Type ℓ} (P : A → Type κ) (xs ys : List A) → All P xs → All P ys → All P (xs ++ ys)
All-append P [] ys h k = k
All-append P (x ∷ xs) ys h k = (h.0, All-append P xs ys h.1 k)

All-concat {ℓ κ} :
    {A : Type ℓ} (P : A → Type κ) (xs : List (List A)) → All (All P) xs → All P (concat xs)
All-concat P [] h = tt
All-concat P (r ∷ xs) h = All-append P r (concat xs) h.0 (All-concat P xs h.1)

-- the elements of blocks, one after the other
abbrev pub flatten : {E : Type 0} → Blocks E → List E
flatten blocks = concat (concat (concat blocks))

module _ {E : Type 0} (s1 s2 s3 : ℕ) where
  -- Blocks of one shape.
  abbrev Plane : List (List E) → Type 0
  Plane y = (length y ≡ s2) × All (λ z. length z ≡ s3) y

  abbrev pub Rectangular : Blocks E → Type 0
  Rectangular blocks = All (λ x. (length x ≡ s1) × All Plane x) blocks

  flat_item-flatten :
      (s0 a b c d : ℕ) (blocks : Blocks E)
      → Rectangular blocks
      → b < s1
      → c < s2
      → d < s3
      → flat_item (s0 ∷ s1 ∷ s2 ∷ s3 ∷ []) (flatten blocks) a b c d ≡ nested_item blocks a b c d
  unfolding flat_item nested_item
  flat_item-flatten s0 a b c d blocks r hb hc hd =
      let planes : All Plane (concat blocks) =
        All-concat Plane blocks (All-imp _ (All Plane) blocks (λ x p. p.1) r) in
      let rows : All (λ z. length z ≡ s3) (concat (concat blocks)) =
        All-concat (λ z. length z ≡ s3) (concat blocks)
          (All-imp Plane (All (λ z. length z ≡ s3)) (concat blocks) (λ y p. p.1) planes) in
      rw
        (
          item-concat (concat (concat blocks)) s3 ((a * s1 + b) * s2 + c) d rows hd,
          item-concat (concat blocks) s2 (a * s1 + b) c
              (All-imp Plane (λ y. length y ≡ s2) (concat blocks) (λ y p. p.0) planes) hc,
          item-concat blocks s1 a b (All-imp _ (λ x. length x ≡ s1) blocks (λ x p. p.0) r) hb,
        )
        (>>=-assoc (item blocks a >>= λ x. item x b) (λ y. item y c) (λ z. item z d)
          ∙ >>=-assoc (item blocks a) (λ x. item x b) (λ y. item y c >>= λ z. item z d))

-- Where the blocks of keys and those of values are rectangular and their tensors hold the same
-- elements one after the other, the flat source and the nested one have the same key and value at
-- every point of the shape.
pub key_value-flatten :
    {E : Type 0} (heads dims tokens s0 s0' block head dim token : ℕ) (ks vs : Blocks E)
    → Rectangular heads dims tokens ks
    → Rectangular heads tokens dims vs
    → head < heads
    → dim < dims
    → token < tokens
    → key_value
        (flat
          (s0 ∷ heads ∷ dims ∷ tokens ∷ [])
          (flatten ks)
          (s0' ∷ heads ∷ tokens ∷ dims ∷ [])
          (flatten vs))
        block
        head
        dim
        token
      ≡ key_value (nested ks vs) block head dim token
unfolding key_value
key_value-flatten heads dims tokens s0 s0' block head dim token ks vs rk rv hh hd ht = rw (
  flat_item-flatten heads dims tokens s0 block head dim token ks rk hh hd ht,
  flat_item-flatten heads tokens dims s0' block head token dim vs rv hh ht hd,
)
