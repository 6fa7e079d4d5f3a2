-- ===== src/Py/SortedSet.antt =====
-- `sorted({…})` of texts.
use permeant_os.Prelude.{
  String, List, [], ◌∷◌, ◌==◌, ◌≡◌, refl, ◌||◌, if◌then◌else◌, contains, eq_iff, arith,
}
use permeant_os.Py.Value.{Value, str}
use permeant_os.Py.Text.{text_leb}

-- A text put in its place among sorted texts, once.
unfoldable pub place_once : String → List String → List String
place_once s [] = s ∷ []
place_once s (x ∷ xs) =
    let rest = place_once s xs in
    if s == x then x ∷ xs else if text_leb s x then s ∷ x ∷ xs else x ∷ rest

-- `sorted({…})`
unfoldable pub sorted_set : List String → List String
unfolding place_once
sorted_set [] = []
sorted_set (s ∷ ss) = place_once s (sorted_set ss)

abbrev pub texts : List String → List Value
texts [] = []
texts (s ∷ ss) = str s ∷ texts ss

contains-place_once :
    (s x : String) (xs : List String) → contains (place_once s xs) x ≡ (s == x || contains xs x)
unfolding place_once contains
contains-place_once s x [] = refl
contains-place_once s x (y ∷ ys) =
    ground (arith, eq_iff s y, eq_iff s x, eq_iff y x, contains-place_once s x ys)

-- Sorting keeps the members.
pub contains-sorted_set :
    (xs : List String) (x : String) → contains (sorted_set xs) x ≡ contains xs x
unfolding sorted_set contains
contains-sorted_set [] x = refl
contains-sorted_set (s ∷ ss) x = rw (contains-place_once, contains-sorted_set ss x)
