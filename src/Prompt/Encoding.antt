-- ===== src/Prompt/Encoding.antt =====
-- What the token hashes are hashes of determines the tokens.
use permeant_os.Prelude.{
  ℕ, ◌+◌, ◌*◌, ◌/◌, ◌%◌, Bool-cases, inl, inr, ltb, ◌≡◌, ◌≢◌, refl, ap, List, [], ◌∷◌, ◌++◌, arith,
  sym, ◌∙◌,
}
use permeant_os.Py.Result.{ok, >>=-eq-ok, ok-injective}
use mathlib.Core.Path.{ap₂}
use mathlib.Core.List.{append-eq-nil_iff}
use permeant_os.Prompt.{to_bytes2, to_bytes4, bytes_onto, token_bytes, kv_bytes}

-- what the two bytes of a token are
abbrev Halves : ℕ → List ℕ → Type 0
Halves n bytes = (a : ℕ) × (b : ℕ) × (bytes ≡ a ∷ b ∷ []) × (n ≡ a * 256 + b)

to_bytes2-Halves : (n : ℕ) (bytes : List ℕ) → to_bytes2 n ≡ ok bytes → Halves n bytes
unfolding to_bytes2 bytes_onto
to_bytes2-Halves n bytes h = elim (Bool-cases (ltb n 65536)) [
  | inl small ↦ (n / 256 % 256, n % 256, sym (ok-injective _ bytes (rw small at h)), ground arith)
  | inr large ↦ cc (rw large at h)
]

Halves-injective :
    (m n : ℕ) (x y more less : List ℕ)
    → Halves m x
    → Halves n y
    → x ++ more ≡ y ++ less
    → (m ≡ n) × (more ≡ less)
Halves-injective m n x y more less (a, b, p, q) (c, d, r, s) e =
    let joined : a ∷ b ∷ more ≡ c ∷ d ∷ less = rw (p, r) at e in
    let first : a ≡ c = cc in let second : b ≡ d = cc in (omega (arith, first, second, q, s), cc)

token_bytes-cons : (t : ℕ) (tokens : List ℕ) → token_bytes (t ∷ tokens) ≢ ok []
unfolding token_bytes
token_bytes-cons t tokens h =
    let (x, p, h1) = >>=-eq-ok (to_bytes2 t) _ h in
    let (more, _, h2) = >>=-eq-ok (token_bytes tokens) _ h1 in
    let (a, b, e, _) = to_bytes2-Halves t x p in
    let empty : x ++ more ≡ [] = ok-injective _ _ h2 in cc (ap (λ v. v ++ more) (sym e) ∙ empty)

-- Two lists of tokens that feed the same bytes to the hash are the same list.
pub token_bytes-injective :
    (tokens others bytes : List ℕ)
    → token_bytes tokens ≡ ok bytes
    → token_bytes others ≡ ok bytes
    → tokens ≡ others
unfolding token_bytes
token_bytes-injective [] [] bytes h k = refl
token_bytes-injective [] (u ∷ others) bytes h k = absurd (token_bytes-cons u others (k ∙ sym h))
token_bytes-injective (t ∷ tokens) [] bytes h k = absurd (token_bytes-cons t tokens (h ∙ sym k))
token_bytes-injective (t ∷ tokens) (u ∷ others) bytes h k =
    let (x, p, h1) = >>=-eq-ok (to_bytes2 t) _ h in
    let (more, q, h2) = >>=-eq-ok (token_bytes tokens) _ h1 in
    let (y, r, k1) = >>=-eq-ok (to_bytes2 u) _ k in
    let (less, s, k2) = >>=-eq-ok (token_bytes others) _ k1 in
    let same : x ++ more ≡ y ++ less = ok-injective _ _ (h2 ∙ sym k2) in
    let (head, tail) =
      Halves-injective t u x y more less (to_bytes2-Halves t x p) (to_bytes2-Halves u y r) same in
    ap₂ (λ v vs. v ∷ vs) head (token_bytes-injective tokens others more q (rw tail s))

append-cancel : (xs ys zs : List ℕ) → xs ++ ys ≡ xs ++ zs → ys ≡ zs
append-cancel [] ys zs h = h
append-cancel (x ∷ xs) ys zs h = append-cancel xs ys zs cc

kv_bytes-cons : (position t : ℕ) (tokens : List ℕ) → kv_bytes position (t ∷ tokens) ≢ ok []
unfolding kv_bytes
kv_bytes-cons position t tokens h =
    let (place, _, h1) = >>=-eq-ok (to_bytes4 position) _ h in
    let (x, p, h2) = >>=-eq-ok (to_bytes2 t) _ h1 in
    let (more, _, h3) = >>=-eq-ok (kv_bytes (position + 1) tokens) _ h2 in
    let (a, b, e, _) = to_bytes2-Halves t x p in
    let empty : place ++ (x ++ more) ≡ [] = ok-injective _ _ h3 in
    let (_, rest) = (append-eq-nil_iff {p = place} {q = x ++ more}).0 empty in
    let nothing : x ++ more ≡ [] = rest in cc (ap (λ v. v ++ more) (sym e) ∙ nothing)

-- Two lists of tokens for which the simulated KV hash hashes the same bytes, from one position on, are
-- the same list.
pub kv_bytes-injective :
    (position : ℕ) (tokens others bytes : List ℕ)
    → kv_bytes position tokens ≡ ok bytes
    → kv_bytes position others ≡ ok bytes
    → tokens ≡ others
unfolding kv_bytes
kv_bytes-injective position [] [] bytes h k = refl
kv_bytes-injective position [] (u ∷ others) bytes h k =
    absurd (kv_bytes-cons position u others (k ∙ sym h))
kv_bytes-injective position (t ∷ tokens) [] bytes h k =
    absurd (kv_bytes-cons position t tokens (h ∙ sym k))
kv_bytes-injective position (t ∷ tokens) (u ∷ others) bytes h k =
    let (place, f, h1) = >>=-eq-ok (to_bytes4 position) _ h in
    let (x, p, h2) = >>=-eq-ok (to_bytes2 t) _ h1 in
    let (more, q, h3) = >>=-eq-ok (kv_bytes (position + 1) tokens) _ h2 in
    let (place', g, k1) = >>=-eq-ok (to_bytes4 position) _ k in
    let (y, r, k2) = >>=-eq-ok (to_bytes2 u) _ k1 in
    let (less, s, k3) = >>=-eq-ok (kv_bytes (position + 1) others) _ k2 in
    let there : place' ≡ place = ok-injective _ _ (sym g ∙ f) in
    let same : place ++ (x ++ more) ≡ place ++ (y ++ less) =
      ok-injective _ _ (h3 ∙ sym (rw there at k3)) in
    let (head, tail) =
      Halves-injective t u x y more less (to_bytes2-Halves t x p) (to_bytes2-Halves u y r)
        (append-cancel place _ _ same) in
    ap₂ (λ v vs. v ∷ vs) head (kv_bytes-injective (position + 1) tokens others more q (rw tail s))
