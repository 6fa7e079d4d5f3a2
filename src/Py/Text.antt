-- ===== src/Py/Text.antt =====
-- `str` methods: the UTF-8 encoding, decimal numbers, `join`, `lower`, and the order of texts.
use permeant_os.Prelude.{
  ℕ, zero, suc, ◌+◌, ◌-◌, ◌/◌, ◌%◌, code, String, ◌<>◌, Bool, true, false, ◌&&◌, List, [], ◌∷◌,
  ◌++◌, ltb, leb, eqb, if◌then◌else◌,
}

-- The code points of a text.
abbrev pub codes : String → List ℕ
codes String.[] = []
codes (String.◌∷◌ c s) = code c ∷ codes s

-- The bytes of one code point.
unfoldable pub utf8_char : ℕ → List ℕ
utf8_char c =
    if ltb c 128
    then c ∷ []
    else if ltb c 2048
    then (192 + c / 64) ∷ (128 + c % 64) ∷ []
    else if ltb c 65536
    then (224 + c / 4096) ∷ (128 + c / 64 % 64) ∷ (128 + c % 64) ∷ []
    else (240 + c / 262144 % 8) ∷ (128 + c / 4096 % 64) ∷ (128 + c / 64 % 64) ∷ (128 + c % 64) ∷ []

-- `text.encode("utf-8")`
unfoldable pub encode : String → List ℕ
unfolding utf8_char
encode String.[] = []
encode (String.◌∷◌ c s) = utf8_char (code c) ++ encode s

-- `sep.join(parts)`
unfoldable pub join : String → List String → String
join sep [] = ""
join sep (x ∷ []) = x
join sep (x ∷ y ∷ xs) = x <> sep <> join sep (y ∷ xs)

-- The character at an index, as a text.
abbrev pub nth_char : String → ℕ → String
nth_char String.[] i = ""
nth_char (String.◌∷◌ c s) zero = String.◌∷◌ c String.[]
nth_char (String.◌∷◌ c s) (suc i) = nth_char s i

-- Digits in a base up to 16, at least `width` of them; `fuel` bounds their number.
unfoldable pub digits_onto : ℕ → ℕ → ℕ → ℕ → String → String
digits_onto zero base width n rest = rest
digits_onto (suc fuel) base width n rest =
    let more =
      digits_onto fuel base (width - 1) (n / base)
        (nth_char "0123456789abcdef" (n % base) <> rest) in
    if eqb n 0 && eqb width 0 then rest else more

-- `str(n)` of a natural number: `n + 1` rounds are enough for its digits.
unfoldable pub decimal : ℕ → String
unfolding digits_onto
decimal n = digits_onto (n + 1) 10 1 n ""

-- `"{0:04x}".format(n)`
unfoldable pub hex4 : ℕ → String
unfolding digits_onto
hex4 n = digits_onto 4 16 4 (n % 65536) ""

-- The comparison of two texts by code points.
unfoldable pub text_leb : String → String → Bool
text_leb String.[] t = true
text_leb (String.◌∷◌ c s) String.[] = false
text_leb (String.◌∷◌ c s) (String.◌∷◌ d t) =
    let rest = text_leb s t in
    if ltb (code c) (code d) then true else if ltb (code d) (code c) then false else rest

-- `lower()` as far as it makes ASCII letters: those of A to Z, and the Kelvin sign.
unfoldable pub lower_code : ℕ → ℕ
lower_code c = if leb 65 c && leb c 90 then c + 32 else if eqb c 8490 then 107 else c

unfoldable pub lower : String → List ℕ
unfolding lower_code
lower String.[] = []
lower (String.◌∷◌ c s) = lower_code (code c) ∷ lower s

-- `text.startswith(prefix)`
unfoldable pub starts_with : String → String → Bool
starts_with s String.[] = true
starts_with String.[] (String.◌∷◌ d t) = false
starts_with (String.◌∷◌ c s) (String.◌∷◌ d t) = eqb (code c) (code d) && starts_with s t

-- The text behind its first `n` characters, and those characters.
unfoldable pub drop_chars : ℕ → String → String
drop_chars zero s = s
drop_chars (suc n) String.[] = ""
drop_chars (suc n) (String.◌∷◌ c s) = drop_chars n s

unfoldable pub take_chars : ℕ → String → String
take_chars zero s = ""
take_chars (suc n) String.[] = ""
take_chars (suc n) (String.◌∷◌ c s) = String.◌∷◌ c (take_chars n s)

abbrev pub count_chars : String → ℕ
count_chars String.[] = 0
count_chars (String.◌∷◌ c s) = suc (count_chars s)

-- `text.removeprefix(prefix)`
unfoldable pub remove_prefix : String → String → String
unfolding starts_with drop_chars
remove_prefix s p = if starts_with s p then drop_chars (count_chars p) s else s
