-- ===== src/Py/Equal.antt =====
-- Python's `==` on JSON values, and membership in a set. A number is compared by the `repr` of the
-- float that it equals, so that `True == 1 == 1.0`; that is Python's equality for integers below
-- 10^16, which floats print with no exponent.
use permeant_os.Prelude.{
  refl, ℕ, suc, ◌+◌, String, ◌<>◌, Bool, true, false, ◌&&◌, ◌||◌, List, [], ◌∷◌, ◌==◌, eqb, none,
  some, if◌then◌else◌, ◌≡◌, ap, eq_iff, sym,
}
use permeant_os.Py.Value.{
  Value, null, bool, int, neg, float, str, arr, obj, Fields, end, field, Items, nil, cons,
}
use permeant_os.Py.Result.{Result, ok, raise, type_error, ◌>>=◌, ◌>>◌}
use permeant_os.Py.Dict.{lookup, iter}
use permeant_os.Py.Text.{decimal}

pub data Key : Type 0 where
  nothing container : Key
  text number : String → Key

key_of : Value → Key
key_of null = nothing
key_of (bool true) = number "1.0"
key_of (bool false) = number "0.0"
key_of (int n) = number (decimal n <> ".0")
key_of (neg n) = number ("-" <> decimal (n + 1) <> ".0")
key_of (float r) = number (if r == "-0.0" then "0.0" else r)
key_of (str s) = text s
key_of (arr vs) = container
key_of (obj fs) = container

same_key : Key → Key → Bool
same_key nothing nothing = true
same_key (text s) (text t) = s == t
same_key (number s) (number t) = s == t
same_key _ _ = false

count : Fields → ℕ
count end = 0
count (field k v fs) = suc (count fs)

unfoldable mutual
  unfolding key_of same_key count lookup

  pub py_eq : Value → Value → Bool
  py_eq (arr vs) (arr ws) = eq_items vs ws
  py_eq (obj fs) (obj gs) = eqb (count fs) (count gs) && eq_fields fs gs
  py_eq v w = same_key (key_of v) (key_of w)

  eq_items : Items → Items → Bool
  eq_items nil nil = true
  eq_items (cons v vs) (cons w ws) = py_eq v w && eq_items vs ws
  eq_items _ _ = false

  eq_fields : Fields → Fields → Bool
  eq_fields end gs = true
  eq_fields (field k v fs) gs =
      elim (lookup k gs) [ none ↦ false | some w ↦ py_eq v w ] && eq_fields fs gs

unfoldable pub member : Value → List Value → Bool
member v [] = false
member v (x ∷ xs) = py_eq x v || member v xs

-- `hash(value)` raises for a list and for a dict.
unfoldable pub check_hashable : Value → Result (Unit {0})
check_hashable (arr vs) = raise type_error
check_hashable (obj fs) = raise type_error
check_hashable _ = ok tt

check_all : List Value → Result (List Value)
check_all [] = ok []
check_all (v ∷ vs) = do let rest = check_all vs; check_hashable v; checked ← rest; ok (v ∷ checked)

-- `set(value)`, as the list of its elements
unfoldable pub to_set : Value → Result (List Value)
unfolding check_all check_hashable
to_set v = do listed ← iter v; check_all listed

-- `value in set`
unfoldable pub in_values : Value → List Value → Result Bool
unfolding check_hashable
in_values v vs = do check_hashable v; ok (member v vs)

-- An object that equals a text is that text.
pub py_eq-str : (v : Value) (s : String) → py_eq v (str s) ≡ true → v ≡ str s
unfolding py_eq same_key key_of
py_eq-str (str t) s h = ap str ((eq_iff t s).0 h)
py_eq-str null s h = cc h
py_eq-str (bool true) s h = cc h
py_eq-str (bool false) s h = cc h
py_eq-str _ s h = cc h

pub str-py_eq : (s : String) (v : Value) → py_eq (str s) v ≡ true → v ≡ str s
unfolding py_eq same_key key_of
str-py_eq s (str t) h = ap str (sym ((eq_iff s t).0 h))
str-py_eq s null h = cc h
str-py_eq s (bool true) h = cc h
str-py_eq s (bool false) h = cc h
str-py_eq s _ h = cc h

pub py_eq-str_self : (s : String) → py_eq (str s) (str s) ≡ true
unfolding py_eq same_key key_of
py_eq-str_self s = (eq_iff s s).1 refl

pub py_eq-int_self : (n : ℕ) → py_eq (int n) (int n) ≡ true
unfolding py_eq same_key key_of
py_eq-int_self n = (eq_iff _ _).1 refl
