-- ===== src/Py/Path.antt =====
-- `pathlib.PurePosixPath`: a path is its root and its parts. `Path("a//./b")` has the parts a and b.
use permeant_os.Prelude.{
  Char, code, String, ◌<>◌, Bool, ◌||◌, List, [], ◌∷◌, ◌++◌, eqb, ◌==◌, if◌then◌else◌, get_last?,
  Option, none, some,
}
use permeant_os.Py.Text.{join, starts_with}

pub record PurePath : Type 0 where
  pub absolute : Bool
  pub parts : List String

unfoldable pub extend : Char → List String → List String
extend c [] = String.◌∷◌ c String.[] ∷ []
extend c (p ∷ ps) = String.◌∷◌ c p ∷ ps

-- `text.split("/")`
unfoldable pub split : String → List String
unfolding extend
split String.[] = "" ∷ []
split (String.◌∷◌ c s) =
    let rest = split s in if eqb (code c) b'/' then "" ∷ rest else extend c rest

-- Empty parts and single dots are dropped.
unfoldable pub clean : List String → List String
clean [] = []
clean (p ∷ ps) = let rest = clean ps in if p == "" || p == "." then rest else p ∷ rest

-- `Path(text)`
unfoldable pub path : String → PurePath
unfolding split clean starts_with
path s = record { absolute = starts_with s "/"; parts = clean (split s) }

or_dot : String → String
or_dot s = if s == "" then "." else s

-- `path.as_posix()`, and `str(path)`
unfoldable pub as_posix : PurePath → String
unfolding or_dot join
as_posix p = if p.absolute then "/" <> join "/" p.parts else or_dot (join "/" p.parts)

abbrev name_of : Option String → String
name_of none = ""
name_of (some s) = s

-- `path.name`
abbrev pub name : PurePath → String
name p = name_of (get_last? p.parts)

-- `base / relative`: an absolute right side replaces the left one.
abbrev pub child : PurePath → PurePath → PurePath
child b p = if p.absolute then p else record { absolute = b.absolute; parts = b.parts ++ p.parts }
