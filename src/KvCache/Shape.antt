-- ===== src/KvCache/Shape.antt =====
-- adapters/vllm_live_runtime_registry.py: the loop of `_shape_of_storage`, on nested lists, which
-- have no attribute `shape`. The fuel bounds its rounds; `none` means that it ran out.
use permeant_os.Prelude.{
  ℕ, zero, suc, ◌<◌, ◌≡◌, refl, List, [], ◌∷◌, Option, none, some, arith, ap, length,
}
use permeant_os.Py.Value.{Value, null, bool, int, neg, float, str, arr, obj, nil, cons, to_list}

cons_dim : ℕ → Option (List ℕ) → Option (List ℕ)
cons_dim n none = none
cons_dim n (some dims) = some (n ∷ dims)

-- The cursor moves to the first element of a list, and stays at an empty list.
unfoldable pub shape_of_storage : ℕ → Value → Option (List ℕ)
unfolding cons_dim
shape_of_storage zero v = none
shape_of_storage (suc fuel) (arr nil) = cons_dim 0 (shape_of_storage fuel (arr nil))
shape_of_storage (suc fuel) (arr (cons v vs)) =
    cons_dim (suc (length (to_list vs))) (shape_of_storage fuel v)
shape_of_storage (suc fuel) _ = some []

-- The first element of the first element, and so on, is no empty list.
abbrev pub EndsInScalar : Value → Type 0
EndsInScalar (arr nil) = ⊥
EndsInScalar (arr (cons v vs)) = EndsInScalar v
EndsInScalar _ = Unit {0}

-- the lists that the cursor passes
abbrev pub nesting : Value → ℕ
nesting (arr nil) = 0
nesting (arr (cons v vs)) = suc (nesting v)
nesting _ = 0

shape_of_storage-empty : (fuel : ℕ) → shape_of_storage fuel (arr nil) ≡ none
unfolding shape_of_storage
shape_of_storage-empty zero = refl
shape_of_storage-empty (suc fuel) = rw (shape_of_storage-empty fuel)

shape_of_storage-ends :
    (v : Value) (fuel : ℕ)
    → EndsInScalar v
    → nesting v < fuel
    → (dims : List ℕ) × (shape_of_storage fuel v ≡ some dims) × (length dims ≡ nesting v)
unfolding shape_of_storage
shape_of_storage-ends v zero e h = absurd (omega arith)
shape_of_storage-ends (arr (cons v vs)) (suc fuel) e h =
    let (dims, k, l) = shape_of_storage-ends v fuel e (omega arith) in
    (suc (length (to_list vs)) ∷ dims, rw k, ap suc l)
shape_of_storage-ends (arr nil) (suc fuel) e h = absurd e
shape_of_storage-ends null (suc fuel) e h = ([], refl, refl)
shape_of_storage-ends (bool b) (suc fuel) e h = ([], refl, refl)
shape_of_storage-ends (int n) (suc fuel) e h = ([], refl, refl)
shape_of_storage-ends (neg n) (suc fuel) e h = ([], refl, refl)
shape_of_storage-ends (float r) (suc fuel) e h = ([], refl, refl)
shape_of_storage-ends (str s) (suc fuel) e h = ([], refl, refl)
shape_of_storage-ends (obj fs) (suc fuel) e h = ([], refl, refl)

shape_of_storage-hangs :
    (v : Value) (fuel : ℕ) → ¬ (EndsInScalar v) → shape_of_storage fuel v ≡ none
unfolding shape_of_storage
shape_of_storage-hangs v zero n = refl
shape_of_storage-hangs (arr nil) (suc fuel) n = rw (shape_of_storage-empty fuel)
shape_of_storage-hangs (arr (cons v vs)) (suc fuel) n = rw (shape_of_storage-hangs v fuel n)
shape_of_storage-hangs null (suc fuel) n = absurd (n tt)
shape_of_storage-hangs (bool b) (suc fuel) n = absurd (n tt)
shape_of_storage-hangs (int k) (suc fuel) n = absurd (n tt)
shape_of_storage-hangs (neg k) (suc fuel) n = absurd (n tt)
shape_of_storage-hangs (float r) (suc fuel) n = absurd (n tt)
shape_of_storage-hangs (str s) (suc fuel) n = absurd (n tt)
shape_of_storage-hangs (obj fs) (suc fuel) n = absurd (n tt)

-- The loop ends exactly for storage whose first elements do not lead to an empty list: there more
-- rounds than it is nested are enough, and give as many dimensions; else no number of rounds is.
pub shape_of_storage_ends :
    (v : Value) (fuel : ℕ)
    → (EndsInScalar v
        → nesting v < fuel
        → (dims : List ℕ) × (shape_of_storage fuel v ≡ some dims) × (length dims ≡ nesting v))
      × (¬ (EndsInScalar v) → shape_of_storage fuel v ≡ none)
shape_of_storage_ends v fuel = (shape_of_storage-ends v fuel, shape_of_storage-hangs v fuel)
