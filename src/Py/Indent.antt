-- ===== src/Py/Indent.antt =====
-- `json.dumps(value, indent=2, sort_keys=True)`
use permeant_os.Prelude.{ℕ, zero, suc, ◌+◌, String, ◌<>◌, List, [], ◌∷◌}
use permeant_os.Py.Value.{Value, arr, obj, Fields, end, field, Items, nil, cons}
use permeant_os.Py.Text.{join}
use permeant_os.Py.Json.{dumps, place, quote}

spaces : ℕ → String
spaces zero = ""
spaces (suc n) = "  " <> spaces n

-- lines between brackets, one level deeper
bracketed : String → String → ℕ → List String → String
bracketed left right depth lines =
    left
    <> "\n"
    <> spaces (depth + 1)
    <> join (",\n" <> spaces (depth + 1)) lines
    <> "\n"
    <> spaces depth
    <> right

named : List (String × String) → List String
named [] = []
named ((k, v) ∷ kvs) = (quote k <> ": " <> v) ∷ named kvs

unfoldable mutual
  unfolding bracketed named spaces

  pub dumps_indented : ℕ → Value → String
  dumps_indented depth (arr (cons v vs)) =
      bracketed "[" "]" depth (dumps_indented (depth + 1) v ∷ indented_items (depth + 1) vs)
  dumps_indented depth (obj (field k v fs)) =
      bracketed "{" "}" depth
        (named (place k (dumps_indented (depth + 1) v) (indented_entries (depth + 1) fs)))
  dumps_indented depth v = dumps v

  indented_items : ℕ → Items → List String
  indented_items depth nil = []
  indented_items depth (cons v vs) = dumps_indented depth v ∷ indented_items depth vs

  indented_entries : ℕ → Fields → List (String × String)
  indented_entries depth end = []
  indented_entries depth (field k v fs) =
      place k (dumps_indented depth v) (indented_entries depth fs)
