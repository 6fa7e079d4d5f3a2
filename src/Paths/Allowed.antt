-- ===== src/Paths/Allowed.antt =====
-- What `path_allowed_by_prefix` guarantees: an allowed path lies below `reports`.
use permeant_os.Prelude.{
  String, Char, code, ◌<>◌, ◌≡◌, refl, ap, Bool-cases, inl, inr, true, false, ◌||◌, List, [], ◌∷◌,
  arith, contains, All, eqb, Bool-cases, ◌==◌, inl, inr,
}
use mathlib.Core.Path.{ap₂}
use text.Mathlib.TextEquality.{Char-path}
use permeant_os.Py.Value.{Value, str}
use permeant_os.Py.Result.{ok, >>=-eq-ok}
use permeant_os.Py.Text.{starts_with, join}
use permeant_os.Py.Path.{PurePath, path, split, extend, clean, as_posix}
use permeant_os.Paths.{path_allowed_by_prefix, safe_workspace_relative_path}
use permeant_os.Paths.Safe.{safe_relative_path_iff}

-- The text has no slash.
abbrev pub NoSlash : String → Type 0
NoSlash String.[] = Unit
NoSlash (String.◌∷◌ c s) = (eqb (code c) b'/' ≡ false) × NoSlash s

extend-NoSlash :
    (c : Char) (ps : List String)
    → eqb (code c) b'/' ≡ false
    → All NoSlash ps
    → All NoSlash (extend c ps)
unfolding extend
extend-NoSlash c [] e h = ((e, tt), tt)
extend-NoSlash c (p ∷ ps) e h = ((e, h.0), h.1)

split-NoSlash : (s : String) → All NoSlash (split s)
unfolding split
split-NoSlash String.[] = (tt, tt)
split-NoSlash (String.◌∷◌ c s) = elim (Bool-cases (eqb (code c) b'/')) [
  | inl e ↦ rw e (tt, split-NoSlash s)
  | inr e ↦ rw e (extend-NoSlash c (split s) e (split-NoSlash s))
]

clean-All : (P : String → Type 0) (ps : List String) → All P ps → All P (clean ps)
unfolding clean
clean-All P [] h = tt
clean-All P (p ∷ ps) h = elim (Bool-cases (p == "" || p == ".")) [
  | inl e ↦ rw e (clean-All P ps h.1)
  | inr e ↦ rw e (h.0, clean-All P ps h.1)
]

-- A part that begins the text before the first slash is the whole of it.
starts_with-eq :
    (p w r : String) → NoSlash p → NoSlash w → starts_with (p <> "/" <> r) (w <> "/") ≡ true → p ≡ w
unfolding starts_with ◌<>◌
starts_with-eq String.[] String.[] r np nw h = refl
starts_with-eq String.[] (String.◌∷◌ d w) r np nw h = ground arith
starts_with-eq (String.◌∷◌ c p) String.[] r np nw h = ground arith
starts_with-eq (String.◌∷◌ c p) (String.◌∷◌ d w) r np nw h =
    ap₂ String.◌∷◌ (Char-path c d (ground arith)) (starts_with-eq p w r np.1 nw.1 (ground arith))

-- A text with no slash begins with none that has one.
not_starts_with : (p w : String) → NoSlash p → starts_with p (w <> "/") ≡ false
unfolding starts_with ◌<>◌
not_starts_with String.[] String.[] n = refl
not_starts_with String.[] (String.◌∷◌ d w) n = refl
not_starts_with (String.◌∷◌ c p) String.[] n = ground arith
not_starts_with (String.◌∷◌ c p) (String.◌∷◌ d w) n = ground (arith, not_starts_with p w n.1)

reports-NoSlash : NoSlash "reports"
reports-NoSlash = ground arith

-- The joined parts begin with `reports/` only if the first is `reports` and there is a second.
join-reports :
    (ps : List String)
    → All NoSlash ps
    → starts_with (join "/" ps) "reports/" ≡ true
    → (q : String) × (qs : List String) × (ps ≡ "reports" ∷ q ∷ qs)
unfolding join starts_with ◌<>◌
join-reports [] n h = cc
join-reports (p ∷ []) n h = cc (not_starts_with p "reports" n.0)
join-reports (p ∷ q ∷ qs) n h = (
  q,
  qs,
  ap (λ x. x ∷ q ∷ qs) (starts_with-eq p "reports" (join "/" (q ∷ qs)) n.0 reports-NoSlash h),
)

parts-NoSlash : (s : String) → All NoSlash (path s).parts
unfolding path
parts-NoSlash s = clean-All NoSlash (split s) (split-NoSlash s)

dot : starts_with "." "reports/" ≡ false
unfolding starts_with
dot = refl

as_posix-relative :
    (p : PurePath)
    → p.absolute ≡ false
    → starts_with (as_posix p) "reports/" ≡ true
    → starts_with (join "/" p.parts) "reports/" ≡ true
unfolding as_posix
as_posix-relative p r h = elim (Bool-cases (join "/" p.parts == "")) [
  | inl e ↦ cc (rw (r, e) at h, dot)
  | inr e ↦ rw (r, e) at h
]

-- A value that the prefix test allows is a text whose path is relative, begins with `reports`, has a
-- second part, and has no part `..`.
pub path_allowed_by_prefix_sound :
    (v : Value)
    → path_allowed_by_prefix v ≡ ok true
    → (s : String) × (q : String) × (qs : List String) × (v ≡ str s)
      × (path s ≡ record { absolute = false; parts = "reports" ∷ q ∷ qs })
      × (contains ("reports" ∷ q ∷ qs) ".." ≡ false)
unfolding path_allowed_by_prefix
path_allowed_by_prefix_sound v h =
    let (p, safe, a) = >>=-eq-ok (safe_workspace_relative_path v) _ h in
    let (s, e, r, c) = (safe_relative_path_iff v "artifact restore path" p).0 safe in
    let (q, qs, d) =
      join-reports p.parts (rw r (parts-NoSlash s))
        (as_posix-relative p c.relative (ground arith)) in
    (s, q, qs, e, ground (arith, c.relative), rw d at c.no_parent)
