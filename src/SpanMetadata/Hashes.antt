-- ===== src/SpanMetadata/Hashes.antt =====
-- Which texts `ensure_sha256` accepts.
use permeant_os.Prelude.{
  Char, ℕ, zero, suc, String, ◌<>◌, ◌≡◌, ◌↔◌, refl, ◌⊎◌, inl, inr, Bool, true, false, ◌&&◌, code,
  eqb, arith, ap, Bool-cases, ◌∙◌, sym,
}
use permeant_os.Py.Value.{Value, str}
use permeant_os.Py.Result.{ok, ok-injective}
use text.Mathlib.TextEquality.{Char-path}
use permeant_os.Py.Text.{count_chars, starts_with, drop_chars}
use permeant_os.SpanMetadata.{is_hex, hex_to_end, sha256_re, ensure_sha256}

-- `n` hexadecimal digits, and nothing more
unfoldable pub hex_digits : ℕ → String → Bool
hex_digits zero String.[] = true
hex_digits zero (String.◌∷◌ c s) = false
hex_digits (suc n) String.[] = false
hex_digits (suc n) (String.◌∷◌ c s) = is_hex (code c) && hex_digits n s

pub hex_to_end-hex_digits : (n : ℕ) (s : String) → hex_digits n s ≡ true → hex_to_end n s ≡ true
unfolding hex_digits hex_to_end
hex_to_end-hex_digits zero String.[] h = refl
hex_to_end-hex_digits zero (String.◌∷◌ c s) h = cc h
hex_to_end-hex_digits (suc n) String.[] h = h
hex_to_end-hex_digits (suc n) (String.◌∷◌ c s) h = ground (arith, hex_to_end-hex_digits n s)

eqb-Char : (c d : Char) → eqb (code c) (code d) ≡ true → c ≡ d
eqb-Char c d h = Char-path c d (ground arith)

-- What stands before the end: the digits, and perhaps a line break.
hex_to_end_sound :
    (n : ℕ) (s : String)
    → hex_to_end n s ≡ true
    → (hex_digits n s ≡ true) ⊎ ((d : String) × (hex_digits n d ≡ true) × (s ≡ d <> "\n"))
unfolding hex_digits hex_to_end ◌<>◌
hex_to_end_sound zero String.[] h = inl refl
hex_to_end_sound zero (String.◌∷◌ c String.[]) h =
    inr ("", refl, ap (λ x. String.◌∷◌ x String.[]) (eqb-Char c "\n" h))
hex_to_end_sound zero (String.◌∷◌ c (String.◌∷◌ d s)) h = cc h
hex_to_end_sound (suc n) String.[] h = cc h
hex_to_end_sound (suc n) (String.◌∷◌ c s) h = elim (hex_to_end_sound n s (ground arith)) [
  | inl d ↦ inl (ground arith)
  | inr (d, k, e) ↦ inr (String.◌∷◌ c d, ground arith, ap (String.◌∷◌ c) e)
]

hex_to_end-break : (n : ℕ) (d : String) → hex_digits n d ≡ true → hex_to_end n (d <> "\n") ≡ true
unfolding hex_digits hex_to_end ◌<>◌
hex_to_end-break zero String.[] h = refl
hex_to_end-break zero (String.◌∷◌ c s) h = cc h
hex_to_end-break (suc n) String.[] h = cc h
hex_to_end-break (suc n) (String.◌∷◌ c s) h = ground (arith, hex_to_end-break n s)

starts_with_sound : (s p : String) → starts_with s p ≡ true → s ≡ p <> drop_chars (count_chars p) s
unfolding starts_with drop_chars ◌<>◌
starts_with_sound s String.[] h = refl
starts_with_sound String.[] (String.◌∷◌ d t) h = cc h
starts_with_sound (String.◌∷◌ c s) (String.◌∷◌ d t) h = elim (Bool-cases (eqb (code c) (code d))) [
  | inl e ↦ (λ i. String.◌∷◌ (eqb-Char c d e i) (starts_with_sound s t (rw e at h) i))
  | inr n ↦ cc (rw n at h)
]

pub sha256_re-prefix : (d : String) → hex_to_end 64 d ≡ true → sha256_re ("sha256:" <> d) ≡ true
unfolding sha256_re starts_with drop_chars ◌<>◌
sha256_re-prefix d h = h

-- A text that the pattern matches: the prefix, 64 digits, and perhaps a line break.
abbrev pub Digest : String → Type 0
Digest s =
    (d : String) × (hex_digits 64 d ≡ true)
    × ((s ≡ "sha256:" <> d) ⊎ (s ≡ "sha256:" <> (d <> "\n")))

pub sha256_re_iff : (s : String) → (sha256_re s ≡ true) ↔ Digest s
unfolding sha256_re
sha256_re_iff s = (
  λ h.
      let start : starts_with s "sha256:" ≡ true = ground arith in
      let whole = starts_with_sound s "sha256:" start in
      elim (hex_to_end_sound 64 (drop_chars 7 s) (ground arith)) [
        | inl d ↦ (drop_chars 7 s, d, inl whole)
        | inr (d, k, e) ↦ (d, k, inr (whole ∙ ap (λ x. "sha256:" <> x) e))
      ],
  λ (d, k, e). elim e [
    | inl x ↦ rw x (sha256_re-prefix d (hex_to_end-hex_digits 64 d k))
    | inr x ↦ rw x (sha256_re-prefix (d <> "\n") (hex_to_end-break 64 d k))
  ],
)

-- `ensure_sha256` accepts exactly the texts that are `sha256:` and 64 hexadecimal digits, with or
-- without a line break behind them, and returns the text.
pub ensure_sha256_iff :
    (name s : String) (v : Value) → (ensure_sha256 name v ≡ ok s) ↔ ((v ≡ str s) × Digest s)
unfolding ensure_sha256
ensure_sha256_iff name s (str t) = elim (Bool-cases (sha256_re t)) [
  | inl e ↦ rw e (
    λ h.
        let same : t ≡ s = ok-injective t s h in
        (ap str same, (sha256_re_iff s).0 (ap sha256_re (sym same) ∙ e)),
    λ (x, d). cc x,
  )
  | inr n ↦ rw n (λ h. cc h, λ (x, d). cc (n, x, (sha256_re_iff s).1 d))
]
ensure_sha256_iff name s _ = (λ h. cc h, λ (x, d). cc x)
