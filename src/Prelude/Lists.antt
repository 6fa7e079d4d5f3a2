-- ===== src/Prelude/Lists.antt =====
-- Lists measured by native numbers, under the library's names, and lists of texts.
use Prim.Native.Nat.{ℕ, zero, suc, ◌+◌}
use Prim.Native.String.{String}
use mathlib.Core.Path.{◌≡◌, subst}
use mathlib.Core.Bool.{Bool, true, false, not, ◌&&◌, ◌||◌}
use mathlib.Core.List.{List, [], ◌∷◌, ◌++◌}
use mathlib.Core.Option.{Option, none, some}
use native.Mathlib.Omega.{arith}
use text.Mathlib.Text.{◌==◌}
use mathlib.Core.Logic.{◌⊎◌, inl, inr, ◌≢◌}
use permeant_os.Prelude.Tests.{Bool-cases}
use text.Mathlib.TextEquality.{eq_iff}

module _ {ℓ} {A : Type ℓ} where
  abbrev pub length : List A → ℕ
  length [] = 0
  length (x ∷ xs) = suc (length xs)

  abbrev pub get_elem? : List A → ℕ → Option A
  get_elem? [] i = none
  get_elem? (x ∷ xs) zero = some x
  get_elem? (x ∷ xs) (suc i) = get_elem? xs i

  abbrev pub get_last? : List A → Option A
  get_last? [] = none
  get_last? (x ∷ []) = some x
  get_last? (x ∷ y ∷ xs) = get_last? (y ∷ xs)

  pub length-append : (xs ys : List A) → length (xs ++ ys) ≡ length xs + length ys
  length-append [] ys = omega arith
  length-append (x ∷ xs) ys = omega (arith, length-append xs ys)

infixr 65 ◌<>◌
-- The concatenation of two texts, by characters.
unfoldable pub ◌<>◌ : String → String → String
String.[] <> t = t
String.◌∷◌ c s <> t = String.◌∷◌ c (s <> t)

-- `text in texts`
unfoldable pub contains : List String → String → Bool
contains [] s = false
contains (x ∷ xs) s = x == s || contains xs s

pub contains-cons_self : (x : String) (xs : List String) → contains (x ∷ xs) x ≡ true
unfolding contains
contains-cons_self x xs = ground (arith, eq_iff x x)

-- Two texts that compare as different; the comparison of literals computes.
pub differ : (s t : String) → (s == t) ≡ false → s ≢ t
differ s t d e = cc (d, (eq_iff s t).1 e)

-- No text of the first list is in the second.
abbrev pub disjoint : List String → List String → Bool
unfolding contains
disjoint [] ys = true
disjoint (x ∷ xs) ys = not (contains ys x) && disjoint xs ys

pub contains-disjoint :
    (xs ys : List String) (s : String)
    → disjoint xs ys ≡ true
    → contains xs s ≡ true
    → contains ys s ≡ false
unfolding contains
contains-disjoint [] ys s d h = cc
contains-disjoint (x ∷ xs) ys s d h = elim (Bool-cases (x == s)) [
  | inl e ↦ rw (← (eq_iff x s).0 e) (ground arith)
  | inr n ↦ contains-disjoint xs ys s (ground arith) (ground arith)
]

-- Every element satisfies `P`; it computes to a tuple.
abbrev pub All {ℓ κ} : {A : Type ℓ} → (A → Type κ) → List A → Type κ
All P [] = Unit
All P (x ∷ xs) = P x × All P xs

-- Some element of a list.
abbrev pub Some {ℓ} : {A : Type ℓ} → (A → Type 0) → List A → Type 0
Some P [] = ⊥
Some P (x ∷ xs) = P x ⊎ Some P xs

pub All-imp {ℓ κ ρ} :
    {A : Type ℓ} (P : A → Type κ) (Q : A → Type ρ) (xs : List A)
    → ((x : A) → P x → Q x)
    → All P xs
    → All Q xs
All-imp P Q [] f h = tt
All-imp P Q (x ∷ xs) f h = (f x h.0, All-imp P Q xs f h.1)

pub All-contains {ℓ} :
    (P : String → Type ℓ) (xs : List String) (s : String) → All P xs → contains xs s ≡ true → P s
unfolding contains
All-contains P [] s h c = cc
All-contains P (x ∷ xs) s h c = elim (Bool-cases (x == s)) [
  | inl e ↦ subst P ((eq_iff x s).0 e) h.0
  | inr n ↦ All-contains P xs s h.1 (ground arith)
]
