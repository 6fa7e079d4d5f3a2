-- ===== src/Py/Dict.antt =====
-- Dictionaries with text keys, in insertion order: `get`, subscripts, assignment, `pop`, and the
-- iteration over an arbitrary object.
use permeant_os.Prelude.{
  String, ◌≡◌, refl, Bool, false, Option, none, some, List, [], ◌∷◌, arith, ◌==◌, eq_iff, map,
  if◌then◌else◌, contains, subst,
}
use permeant_os.Py.Value.{Value, null, str, arr, obj, Fields, end, field, to_list, entries}
use permeant_os.Py.Result.{Result, ok, raise, type_error, attribute_error, key_error, ok-injective}

unfoldable pub lookup : String → Fields → Option Value
lookup k end = none
lookup k (field j v fs) = if j == k then some v else lookup k fs

-- `d[k] = v`: a present key keeps its place.
unfoldable pub insert : String → Value → Fields → Fields
insert k v end = field k v end
insert k v (field j w fs) = if j == k then field j v fs else field j w (insert k v fs)

-- `d.pop(k, None)`, without its result
unfoldable pub erase : String → Fields → Fields
erase k end = end
erase k (field j v fs) = let rest = erase k fs in if j == k then rest else field j v rest

pub lookup-insert :
    (k j : String) (v : Value) (fs : Fields)
    → lookup j (insert k v fs) ≡ (if k == j then some v else lookup j fs)
unfolding lookup insert
lookup-insert k j v end = refl
lookup-insert k j v (field i w fs) =
    ground (arith, eq_iff k j, eq_iff i k, eq_iff i j, lookup-insert k j v fs)

pub erase-insert : (k : String) (v : Value) (fs : Fields) → erase k (insert k v fs) ≡ erase k fs
unfolding insert erase
erase-insert k v end = ground (arith, eq_iff k k)
erase-insert k v (field i w fs) = ground (arith, eq_iff i k, erase-insert k v fs)

abbrev pub or_default : Value → Option Value → Value
or_default d none = d
or_default d (some v) = v

-- `value.get(key, default)`
unfoldable pub get_or : Value → String → Value → Result Value
get_or (obj fs) k d = ok (or_default d (lookup k fs))
get_or _ k d = raise attribute_error

-- `value.get(key)`
abbrev pub get : Value → String → Result Value
get v k = get_or v k null

abbrev pub present : String → Option Value → Result Value
present k none = raise (key_error k)
present k (some v) = ok v

-- `value[key]`, with a text key
unfoldable pub get_item : Value → String → Result Value
get_item (obj fs) k = present k (lookup k fs)
get_item _ k = raise type_error

-- `value[key] = v`
unfoldable pub set_item : Value → String → Value → Result Value
set_item (obj fs) k v = ok (obj (insert k v fs))
set_item _ k v = raise type_error

abbrev chars : String → List Value
chars String.[] = []
chars (String.◌∷◌ c s) = str (String.◌∷◌ c String.[]) ∷ chars s

-- What `for x in value` runs over.
unfoldable pub iter : Value → Result (List Value)
iter (arr vs) = ok (to_list vs)
iter (obj fs) = ok (map (λ (k, _). str k) (entries fs))
iter (str s) = ok (chars s)
iter _ = raise type_error

-- `value in {…}` for a set of texts: a list or a dict cannot be hashed.
unfoldable pub in_set : Value → List String → Result Bool
in_set (str s) xs = ok (contains xs s)
in_set (arr _) xs = raise type_error
in_set (obj _) xs = raise type_error
in_set _ xs = ok false

-- `value.pop(key, None)`: the value without the key
unfoldable pub pop : Value → String → Result Value
unfolding erase
pop (obj fs) k = ok (obj (erase k fs))
pop (arr _) k = raise type_error
pop _ k = raise attribute_error

-- `{**fs, **gs}`
unfoldable pub merge : Fields → Fields → Fields
unfolding insert
merge fs end = fs
merge fs (field k v gs) = merge (insert k v fs) gs

pub insert-eq_of_lookup :
    (k : String) (v : Value) (fs : Fields) → lookup k fs ≡ some v → insert k v fs ≡ fs
unfolding lookup insert
insert-eq_of_lookup k v end h = cc
insert-eq_of_lookup k v (field j w fs) h = ground (arith, insert-eq_of_lookup k v fs)

pub set_item-get_item : (k : String) (v w x : Value) → set_item v k x ≡ ok w → get_item w k ≡ ok x
unfolding set_item get_item
set_item-get_item k (obj fs) w x h =
    subst (λ (s : Value). get_item s k ≡ ok x) (ok-injective _ w h)
      (rw (lookup-insert, (eq_iff k k).1 refl))
set_item-get_item k _ w x h = cc h

-- A text that `get` finds is there.
pub get-str : (v : Value) (k s : String) → get v k ≡ ok (str s) → get_item v k ≡ ok (str s)
unfolding get_or get_item
get-str (obj fs) k s h = ground arith
get-str _ k s h = cc h
