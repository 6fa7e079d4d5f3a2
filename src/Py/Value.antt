-- ===== src/Py/Value.antt =====
-- Python objects as `json.loads` makes them. The program handles its graphs, manifests and reports
-- as such objects throughout. A float is given by its `repr`, which `json.dumps` prints.
use permeant_os.Prelude.{
  eq_iff, ap, refl, ◌≡◌, ◌↔◌, arith, ℕ, String, Bool, true, false, not, ◌||◌, List, [], ◌∷◌, eqb,
  ◌==◌, Char, Bool-cases, inr, inl,
}

mutual
  pub data Value : Type 0 where
    null : Value
    bool : Bool → Value
    int : ℕ → Value
    neg : ℕ → Value
    float : String → Value
    str : String → Value
    arr : Items → Value
    obj : Fields → Value

  pub data Fields : Type 0 where
    end : Fields
    field : String → Value → Fields → Fields

  pub data Items : Type 0 where
    nil : Items
    cons : Value → Items → Items

abbrev pub items : List Value → Items
items [] = nil
items (v ∷ vs) = cons v (items vs)

abbrev pub to_list : Items → List Value
to_list nil = []
to_list (cons v vs) = v ∷ to_list vs

abbrev pub fields : List (String × Value) → Fields
fields [] = end
fields ((k, v) ∷ kvs) = field k v (fields kvs)

abbrev pub entries : Fields → List (String × Value)
entries end = []
entries (field k v fs) = (k, v) ∷ entries fs

-- A list display and a dict display.
abbrev pub list : List Value → Value
list vs = arr (items vs)

abbrev pub dict : List (String × Value) → Value
dict kvs = obj (fields kvs)

-- `value == text`
abbrev pub is_str : Value → String → Bool
is_str (str s) t = s == t
is_str _ t = false

-- `value is True`
abbrev pub is_true : Value → Bool
is_true (bool b) = b
is_true _ = false

-- `str(value)`, where `show` says what it is of an object that is no text.
abbrev pub text_of : (Value → String) → Value → String
text_of show (str s) = s
text_of show v = show v

-- The truth value of an object.
unfoldable pub truthy : Value → Bool
truthy null = false
truthy (bool b) = b
truthy (int n) = not (eqb n 0)
truthy (neg n) = true
truthy (float r) = not (r == "0.0" || r == "-0.0")
truthy (str s) = not (s == "")
truthy (arr nil) = false
truthy (arr (cons v vs)) = true
truthy (obj end) = false
truthy (obj (field k v fs)) = true

pub is_str_iff : (v : Value) (t : String) → (is_str v t ≡ true) ↔ (v ≡ str t)
is_str_iff (str s) t = (λ h. ap str ((eq_iff s t).0 h), λ e. ground (arith, eq_iff s t))
is_str_iff _ t = (λ h. cc, λ e. cc)

pub is_str_self : (s : String) → is_str (str s) s ≡ true
is_str_self s = (eq_iff s s).1 refl

-- A text that is not empty is true.
pub truthy-cons : (c : Char) (s : String) → truthy (str (String.◌∷◌ c s)) ≡ true
unfolding truthy
truthy-cons c s = elim (Bool-cases (String.◌∷◌ c s == "")) [
  | inr n ↦ rw n
  | inl e ↦ cc ((eq_iff (String.◌∷◌ c s) "").0 e)
]

pub to_list-items : (vs : List Value) → to_list (items vs) ≡ vs
to_list-items [] = refl
to_list-items (v ∷ vs) = ap (λ ws. v ∷ ws) (to_list-items vs)
