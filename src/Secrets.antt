-- ===== src/Secrets.antt =====
-- examples/agent-memory-graph/local_agent.py: the search for raw secret material in a JSON value.
pub mod Keys
pub mod Sound
use permeant_os.Prelude.{
  ℕ, ◌+◌, String, ◌<>◌, Bool, true, false, ◌&&◌, ◌||◌, List, [], ◌∷◌, ◌++◌, eqb, if◌then◌else◌,
}
use permeant_os.Py.Value.{
  Value, null, bool, int, neg, float, str, arr, obj, Fields, end, field, Items, nil, cons,
}
use permeant_os.Py.Text.{codes, lower, decimal}
use permeant_os.Constants.{forbidden_secret_keys}

same_codes : List ℕ → List ℕ → Bool
same_codes [] [] = true
same_codes (x ∷ xs) (y ∷ ys) = eqb x y && same_codes xs ys
same_codes _ _ = false

one_of : List String → List ℕ → Bool
one_of [] k = false
one_of (x ∷ xs) k = same_codes (codes x) k || one_of xs k

-- `key.lower() in FORBIDDEN_SECRET_KEYS`
unfoldable pub is_forbidden_key : String → Bool
unfolding one_of same_codes lower
is_forbidden_key key = one_of forbidden_secret_keys (lower key)

unfoldable mutual
  pub find_forbidden : Value → String → List String
  find_forbidden (obj fs) path = find_in_fields fs path
  find_forbidden (arr vs) path = find_in_items vs path 0
  find_forbidden null path = []
  find_forbidden (bool b) path = []
  find_forbidden (int n) path = []
  find_forbidden (neg n) path = []
  find_forbidden (float r) path = []
  find_forbidden (str s) path = []

  pub find_in_items : Items → String → ℕ → List String
  find_in_items nil path index = []
  find_in_items (cons v vs) path index =
      find_forbidden v (path <> "[" <> decimal index <> "]") ++ find_in_items vs path (index + 1)

  pub find_in_fields : Fields → String → List String
  find_in_fields end path = []
  find_in_fields (field key v fs) path =
      (if is_forbidden_key key then (path <> "." <> key) ∷ [] else [])
      ++ (find_forbidden v (path <> "." <> key) ++ find_in_fields fs path)

-- `find_forbidden_secret_material(value)`, from the root `$`
unfoldable pub find_forbidden_secret_material : Value → List String
unfolding find_forbidden
find_forbidden_secret_material value = find_forbidden value "$"
