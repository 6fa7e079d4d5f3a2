-- ===== src/Import/Latest.antt =====
-- The digests that `import_session` reports of artifacts with one path: a dictionary keeps the last.
use permeant_os.Prelude.{
  ◌≡◌, sym, String, inl, inr, List, [], ◌∷◌, ◌++◌, All, Option, none, some, Bool-cases,
  if◌then◌else◌, ap,
}
use permeant_os.Py.Value.{Value, str, is_str, is_str_iff, is_str_self}
use permeant_os.Py.Result.{ok, >>=-eq-ok, ok-injective}
use permeant_os.Py.Dict.{get_item}
use permeant_os.Py.Equal.{py_eq, py_eq-str, str-py_eq, py_eq-str_self, check_hashable}
use permeant_os.Import.{put_hash, hashes_of}

-- `hashes.get(s)`
abbrev pub found : String → List (Value × Value) → Option Value
found s [] = none
found s ((q, sha) ∷ hashes) = if is_str q s then some sha else found s hashes

found-put_hash :
    (s : String) (sha : Value) (hashes : List (Value × Value))
    → found s (put_hash (str s) sha hashes) ≡ some sha
unfolding put_hash
found-put_hash s sha [] = rw (is_str_self s)
found-put_hash s sha ((q, old) ∷ hashes) = elim (Bool-cases (py_eq q (str s))) [
  | inl same ↦ rw (same, (is_str_iff q s).1 (py_eq-str q s same))
  | inr other ↦ elim (Bool-cases (is_str q s)) [
    | inl here ↦ cc (rw ((is_str_iff q s).0 here, py_eq-str_self s) at other)
    | inr there ↦ rw (other, there, found-put_hash s sha hashes)
  ]
]

found-put_hash_other :
    (s : String) (p sha : Value) (hashes : List (Value × Value))
    → ¬ (p ≡ str s)
    → found s (put_hash p sha hashes) ≡ found s hashes
unfolding put_hash
found-put_hash_other s p sha [] n = elim (Bool-cases (is_str p s)) [
  | inl here ↦ absurd (n ((is_str_iff p s).0 here))
  | inr there ↦ rw there
]
found-put_hash_other s p sha ((q, old) ∷ hashes) n = elim (Bool-cases (py_eq q p)) [
  | inl same ↦ elim (Bool-cases (is_str q s)) [
    | inl here ↦ absurd (n (str-py_eq s p (rw ((is_str_iff q s).0 here) at same)))
    | inr there ↦ rw (same, there)
  ]
  | inr other ↦ rw (other, found-put_hash_other s p sha hashes n)
]

-- No artifact of a list has the path.
abbrev pub Elsewhere : String → List Value → Type 0
Elsewhere s artifacts = All (λ a. ¬ (get_item a "path" ≡ ok (str s))) artifacts

found-hashes_of :
    (s : String) (artifacts : List Value) (before hashes : List (Value × Value))
    → Elsewhere s artifacts
    → hashes_of artifacts before ≡ ok hashes
    → found s hashes ≡ found s before
unfolding hashes_of
found-hashes_of s [] before hashes n h = ap (found s) (sym (ok-injective before hashes h))
found-hashes_of s (a ∷ artifacts) before hashes n h =
    let (p, e1, h1) = >>=-eq-ok (get_item a "path") _ h in
    let (sha, _, h2) = >>=-eq-ok (get_item a "sha256") _ h1 in
    let (_, _, h3) = >>=-eq-ok (check_hashable p) _ h2 in
    rw (found-hashes_of s artifacts (put_hash p sha before) hashes n.1 h3)
      (found-put_hash_other s p sha before (λ same. n.0 (rw e1 (ap ok same))))

pub hashes_of-latest :
    (s : String) (earlier : List Value) (a sha : Value) (later : List Value)
    (before hashes : List (Value × Value))
    → hashes_of (earlier ++ a ∷ later) before ≡ ok hashes
    → get_item a "path" ≡ ok (str s)
    → get_item a "sha256" ≡ ok sha
    → Elsewhere s later
    → found s hashes ≡ some sha
unfolding hashes_of check_hashable
hashes_of-latest s [] a sha later before hashes h named given n =
    rw (found-hashes_of s later (put_hash (str s) sha before) hashes n (rw (named, given) at h))
      (found-put_hash s sha before)
hashes_of-latest s (b ∷ earlier) a sha later before hashes h named given n =
    let (p, _, h1) = >>=-eq-ok (get_item b "path") _ h in
    let (x, _, h2) = >>=-eq-ok (get_item b "sha256") _ h1 in
    let (_, _, h3) = >>=-eq-ok (check_hashable p) _ h2 in
    hashes_of-latest s earlier a sha later (put_hash p x before) hashes h3 named given n
