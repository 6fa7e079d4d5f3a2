-- ===== src/Secrets/Keys.antt =====
-- `key.lower() in FORBIDDEN_SECRET_KEYS`: the spellings of the forbidden keys.
use permeant_os.Prelude.{
  ℕ, ◌+◌, ◌≤◌, ◌≡◌, ◌↔◌, refl, String, Bool, true, not, ◌&&◌, List, [], ◌∷◌, ◌⊎◌, inl, inr, leb,
  eqb, code, Some, arith, Bool-cases,
}
use permeant_os.Py.Text.{codes, lower, lower_code}
use permeant_os.Constants.{forbidden_secret_keys}
use permeant_os.Secrets.{same_codes, one_of, is_forbidden_key}

-- A character that is a given one, or its capital letter, or the Kelvin sign for a `k`.
abbrev pub Cased : ℕ → ℕ → Type 0
Cased c l = (c ≡ l) ⊎ (((97 ≤ l) × (l ≤ 122) × (c + 32 ≡ l)) ⊎ ((c ≡ 8490) × (l ≡ 107)))

-- A text that is a given one, letter by letter, in some mixture of capital and small letters.
abbrev pub Spells : List ℕ → List ℕ → Type 0
Spells [] [] = Unit
Spells (c ∷ cs) (l ∷ ls) = Cased c l × Spells cs ls
Spells _ _ = ⊥

abbrev pub IsForbidden : String → Type 0
IsForbidden k = Some (λ s. Spells (codes k) (codes s)) forbidden_secret_keys

-- no capital letter
abbrev small : ℕ → Bool
small l = not (leb 65 l && leb l 90) && not (eqb l 8490)

abbrev all_small : List ℕ → Bool
all_small [] = true
all_small (l ∷ ls) = small l && all_small ls

abbrev keys_small : List String → Bool
keys_small [] = true
keys_small (s ∷ ss) = all_small (codes s) && keys_small ss

lower_code-Cased : (c l : ℕ) → small l ≡ true → (eqb l (lower_code c) ≡ true) ↔ Cased c l
unfolding lower_code
lower_code-Cased c l h = ground arith

same_codes-Spells :
    (ls : List ℕ) (k : String)
    → all_small ls ≡ true
    → (same_codes ls (lower k) ≡ true) ↔ Spells (codes k) ls
unfolding same_codes lower
same_codes-Spells [] String.[] h = (λ e. tt, λ s. refl)
same_codes-Spells [] (String.◌∷◌ c k) h = (λ e. cc e, λ s. absurd s)
same_codes-Spells (l ∷ ls) String.[] h = (λ e. cc e, λ s. absurd s)
same_codes-Spells (l ∷ ls) (String.◌∷◌ c k) h =
    let first : small l ≡ true = ground arith in
    let others : all_small ls ≡ true = ground arith in
    let (to, from) = lower_code-Cased (code c) l first in
    let (to', from') = same_codes-Spells ls k others in
    (
      λ e.
          let a : eqb l (lower_code (code c)) ≡ true = ground arith in
          let b : same_codes ls (lower k) ≡ true = ground arith in (to a, to' b),
      λ (s, t). rw (from s, from' t),
    )

one_of-Spells :
    (ss : List String) (k : String)
    → keys_small ss ≡ true
    → (one_of ss (lower k) ≡ true) ↔ Some (λ s. Spells (codes k) (codes s)) ss
unfolding one_of
one_of-Spells [] k h = (λ e. cc e, λ s. absurd s)
one_of-Spells (s ∷ ss) k h =
    let first : all_small (codes s) ≡ true = ground arith in
    let others : keys_small ss ≡ true = ground arith in
    let (to, from) = same_codes-Spells (codes s) k first in
    let (to', from') = one_of-Spells ss k others in
    (
      λ e. elim (Bool-cases (same_codes (codes s) (lower k))) [
        | inl same ↦ inl (to same)
        | inr other ↦ inr (to' (rw other at e))
      ],
      λ p. elim p [ inl q ↦ rw (from q) refl | inr q ↦ ground (arith, from' q) ],
    )

-- The test accepts exactly the spellings of the forbidden keys.
pub is_forbidden_key_iff : (k : String) → (is_forbidden_key k ≡ true) ↔ IsForbidden k
unfolding is_forbidden_key
is_forbidden_key_iff k = one_of-Spells forbidden_secret_keys k refl
