-- ===== src/Py/Json.antt =====
-- `json.dumps(value, sort_keys=True, separators=(",", ":"))`, which is ASCII text.
use permeant_os.Prelude.{
  ◌+◌, ◌-◌, ◌/◌, ◌%◌, Char, code, String, ◌<>◌, true, false, ◌&&◌, List, [], ◌∷◌, ltb, leb, eqb,
  if◌then◌else◌,
}
use permeant_os.Py.Value.{
  Value, null, bool, int, neg, float, str, arr, obj, Fields, end, field, Items, nil, cons,
}
use permeant_os.Py.Text.{decimal, hex4, join, text_leb}

escape_char : Char → String
escape_char c =
    let n = code c in
    if eqb n b'"'
    then "\\\""
    else if eqb n b'\\'
    then "\\\\"
    else if eqb n b'\n'
    then "\\n"
    else if eqb n 13
    then "\\r"
    else if eqb n b'\t'
    then "\\t"
    else if eqb n 12
    then "\\f"
    else if eqb n 8
    then "\\b"
    else if leb 32 n && leb n 126
    then String.◌∷◌ c String.[]
    else if ltb n 65536
    then "\\u" <> hex4 n
    else "\\u" <> hex4 (55296 + (n - 65536) / 1024) <> "\\u" <> hex4 (56320 + (n - 65536) % 1024)

escape : String → String
escape String.[] = ""
escape (String.◌∷◌ c s) = escape_char c <> escape s

pub quote : String → String
quote s = "\"" <> escape s <> "\""

-- An entry put in its place among entries sorted by key.
unfoldable pub place : String → String → List (String × String) → List (String × String)
place k v [] = (k, v) ∷ []
place k v ((j, w) ∷ rest) = if text_leb k j then (k, v) ∷ (j, w) ∷ rest else (j, w) ∷ place k v rest

members : List (String × String) → List String
members [] = []
members ((k, v) ∷ kvs) = (quote k <> ":" <> v) ∷ members kvs

unfoldable mutual
  unfolding quote members escape escape_char place

  pub dumps : Value → String
  dumps null = "null"
  dumps (bool true) = "true"
  dumps (bool false) = "false"
  dumps (int n) = decimal n
  dumps (neg n) = "-" <> decimal (n + 1)
  dumps (float r) = r
  dumps (str s) = quote s
  dumps (arr vs) = "[" <> join "," (dump_items vs) <> "]"
  dumps (obj fs) = "{" <> join "," (members (sorted_entries fs)) <> "}"

  dump_items : Items → List String
  dump_items nil = []
  dump_items (cons v vs) = dumps v ∷ dump_items vs

  -- the entries with their values printed, sorted by key
  pub sorted_entries : Fields → List (String × String)
  sorted_entries end = []
  sorted_entries (field k v fs) = place k (dumps v) (sorted_entries fs)
