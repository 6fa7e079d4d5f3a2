-- ===== src/Prompt/Tokens.antt =====
-- The byte tokens of a prompt: examples/agent-memory-graph/local_agent.py, `tokenize_prompt`,
-- `token_hash` and `simulated_kv_hash`.
use Prim.Native.Nat.{compare, Ordering}
use Prim.Native.Char.{char, IsScalar, Char}
use native.Mathlib.Omega.{compare-lt}
use permeant_os.Prelude.{
  ℕ, ◌+◌, ◌<◌, ◌≤◌, ◌≡◌, refl, String, List, [], ◌∷◌, ◌++◌, All, arith, code, length, ◌⊎◌, Some,
  inl, true, false, inr, Bool-cases,
}
use permeant_os.Py.Text.{encode, utf8_char, codes}
use permeant_os.Py.Result.{ok, raise, unicode_encode_error}
use permeant_os.Hashing.{sha256_bytes}
use permeant_os.Prompt.{
  tokenize_prompt, to_bytes2, to_bytes4, bytes_onto, token_bytes, kv_bytes, kv_prefix, token_hash,
  simulated_kv_hash, is_surrogate, tokenize_code_points,
}

-- a number that two bytes hold
abbrev pub IsToken : ℕ → Type 0
IsToken t = t < 65536

All-append {ℓ κ} :
    {A : Type ℓ} (P : A → Type κ) (xs ys : List A) → All P xs → All P ys → All P (xs ++ ys)
All-append P [] ys h k = k
All-append P (x ∷ xs) ys h k = (h.0, All-append P xs ys h.1 k)

utf8_char-tokens : (c : ℕ) → All IsToken (utf8_char c)
unfolding utf8_char
utf8_char-tokens c = ground arith

tokenize_prompt-tokens : (prompt : String) → All IsToken (tokenize_prompt prompt)
unfolding tokenize_prompt encode
tokenize_prompt-tokens String.[] = tt
tokenize_prompt-tokens (String.◌∷◌ c s) =
    All-append IsToken (utf8_char (code c)) (encode s) (utf8_char-tokens (code c))
      (tokenize_prompt-tokens s)

to_bytes2-eq-ok : (n : ℕ) → n < 65536 → to_bytes2 n ≡ ok (bytes_onto 2 n [])
unfolding to_bytes2
to_bytes2-eq-ok n h = ground arith

to_bytes4-eq-ok : (n : ℕ) → n < 4294967296 → to_bytes4 n ≡ ok (bytes_onto 4 n [])
unfolding to_bytes4
to_bytes4-eq-ok n h = ground arith

token_bytes-total :
    (tokens : List ℕ) → All IsToken tokens → (bytes : List ℕ) × (token_bytes tokens ≡ ok bytes)
unfolding token_bytes
token_bytes-total [] h = ([], refl)
token_bytes-total (t ∷ tokens) h =
    let (more, e) = token_bytes-total tokens h.1 in
    (bytes_onto 2 t [] ++ more, rw (to_bytes2-eq-ok t h.0, e))

kv_bytes-total :
    (position : ℕ) (tokens : List ℕ)
    → All IsToken tokens
    → position + length tokens ≤ 4294967296
    → (bytes : List ℕ) × (kv_bytes position tokens ≡ ok bytes)
unfolding kv_bytes
kv_bytes-total position [] h n = ([], refl)
kv_bytes-total position (t ∷ tokens) h n =
    let (more, e) = kv_bytes-total (position + 1) tokens h.1 (omega arith) in
    (
      bytes_onto 4 position [] ++ (bytes_onto 2 t [] ++ more),
      rw (to_bytes4-eq-ok position (omega arith), to_bytes2-eq-ok t h.0, e),
    )

-- what a `String` holds is never a surrogate
scalar-range :
    (n : ℕ) (o p : Ordering)
    → compare n 55296 ≡ o
    → compare 57343 n ≡ p
    → IsScalar n
    → (n < 55296) ⊎ (57343 < n)
scalar-range n Ordering.lt p e d h = inl (compare-lt n 55296 e)
scalar-range n Ordering.eq Ordering.lt e d h = inr (compare-lt 57343 n d)
scalar-range n Ordering.gt Ordering.lt e d h = inr (compare-lt 57343 n d)
scalar-range n Ordering.eq Ordering.eq e d h = absurd (rw (e, d) at h)
scalar-range n Ordering.eq Ordering.gt e d h = absurd (rw (e, d) at h)
scalar-range n Ordering.gt Ordering.eq e d h = absurd (rw (e, d) at h)
scalar-range n Ordering.gt Ordering.gt e d h = absurd (rw (e, d) at h)

is_surrogate-code : (c : Char) → is_surrogate (code c) ≡ false
unfolding is_surrogate
is_surrogate-code (char n h) =
    elim (scalar-range n (compare n 55296) (compare 57343 n) refl refl h) [
      | inl l ↦ ground arith
      | inr l ↦ ground arith
    ]

pub tokenize_code_points-codes :
    (prompt : String) → tokenize_code_points (codes prompt) ≡ ok (tokenize_prompt prompt)
unfolding tokenize_code_points tokenize_prompt encode
tokenize_code_points-codes String.[] = refl
tokenize_code_points-codes (String.◌∷◌ c s) = rw (is_surrogate-code c, tokenize_code_points-codes s)

-- a code point that UTF-8 does not encode
abbrev pub IsSurrogate : ℕ → Type 0
IsSurrogate c = (55296 ≤ c) × (c ≤ 57343)

surrogate : (c : ℕ) → IsSurrogate c → is_surrogate c ≡ true
unfolding is_surrogate
surrogate c h = ground arith

not_surrogate : (c : ℕ) → ¬ IsSurrogate c → is_surrogate c ≡ false
unfolding is_surrogate
not_surrogate c h = ground arith

tokenize_code_points-returns :
    (prompt : List ℕ)
    → All (λ c. ¬ IsSurrogate c) prompt
    → (tokens : List ℕ) × (tokenize_code_points prompt ≡ ok tokens) × All IsToken tokens
unfolding tokenize_code_points is_surrogate
tokenize_code_points-returns [] h = ([], refl, tt)
tokenize_code_points-returns (c ∷ prompt) h =
    let (tokens, e, k) = tokenize_code_points-returns prompt h.1 in
    let d : is_surrogate c ≡ false = not_surrogate c h.0 in
    (
      utf8_char c ++ tokens,
      rw (d, e),
      All-append IsToken (utf8_char c) tokens (utf8_char-tokens c) k,
    )

tokenize_code_points-raises :
    (prompt : List ℕ)
    → Some IsSurrogate prompt
    → tokenize_code_points prompt ≡ raise unicode_encode_error
unfolding tokenize_code_points
tokenize_code_points-raises [] h = absurd h
tokenize_code_points-raises (c ∷ prompt) h = elim (Bool-cases (is_surrogate c)) [
  | inl d ↦ rw d
  | inr d ↦ elim h [
    | inl s ↦ cc (surrogate c s)
    | inr s ↦ rw (d, tokenize_code_points-raises prompt s)
  ]
]

module _ (hexdigest : List ℕ → String) where
  token_hash-total :
      (tokens : List ℕ) → All IsToken tokens → (h : String) × (token_hash hexdigest tokens ≡ ok h)
  unfolding token_hash
  token_hash-total tokens h =
      let (b, e) = token_bytes-total tokens h in (sha256_bytes hexdigest b, rw e)

  pub tokenize_prompt-token_hash :
      (prompt : String) → (h : String) × (token_hash hexdigest (tokenize_prompt prompt) ≡ ok h)
  tokenize_prompt-token_hash prompt =
      token_hash-total (tokenize_prompt prompt) (tokenize_prompt-tokens prompt)

  -- A prompt, any list of code points, with a surrogate among them is not tokenized: UnicodeEncodeError
  -- is raised. Of one without surrogates the tokens are returned, the hash of them is, and the simulated
  -- KV hash is if there are at most 2^32 tokens: no token and no position overflows.
  pub tokenize_code_points-hashed :
      (prompt : List ℕ)
      → (Some IsSurrogate prompt → tokenize_code_points prompt ≡ raise unicode_encode_error)
        × (All (λ c. ¬ IsSurrogate c) prompt
            → (tokens : List ℕ) × (tokenize_code_points prompt ≡ ok tokens)
              × ((h : String) × (token_hash hexdigest tokens ≡ ok h))
              × (length tokens ≤ 4294967296
                  → (h : String) × (simulated_kv_hash hexdigest tokens ≡ ok h)))
  unfolding simulated_kv_hash
  tokenize_code_points-hashed prompt = (
    tokenize_code_points-raises prompt,
    λ h.
        let (tokens, e, k) = tokenize_code_points-returns prompt h in
        (
          tokens,
          e,
          token_hash-total tokens k,
          λ n.
              let (b, d) = kv_bytes-total 0 tokens k (omega arith) in
              (sha256_bytes hexdigest (kv_prefix ++ b), rw d),
        ),
  )
