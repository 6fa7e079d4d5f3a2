-- ===== src/HashRegistry.antt =====
-- adapters/vllm_live_runtime_registry.py: the hashes that were registered, in the process, in the
-- state file, and on the runtime. The state file is given by the JSON value that it holds. A set of
-- texts is a list.
pub mod Durable
use permeant_os.Prelude.{
  String, Bool, true, false, not, ◌||◌, List, [], ◌∷◌, ◌++◌, Option, none, some, if◌then◌else◌,
  contains, ◌==◌,
}
use permeant_os.Py.Value.{Value, str, arr, obj, bool, Items, nil, cons, dict, list}
use permeant_os.Py.Result.{Result, ok, raise, ◌>>=◌}
use permeant_os.Py.Dict.{get_or}
use permeant_os.Py.SortedSet.{sorted_set, texts}

-- `_REGISTERED_HASHES`, and the state file: `none` where the environment names none, and inside it
-- `none` where the named file is not there.
pub record State : Type 0 where
  pub registered : List String
  pub state_file : Option (Option Value)

-- `{item for item in hashes if isinstance(item, str)}`
unfoldable pub strings_of : Items → List String
strings_of nil = []
strings_of (cons (str s) vs) = s ∷ strings_of vs
strings_of (cons _ vs) = strings_of vs

unfoldable pub hashes_in : Value → List String
unfolding strings_of
hashes_in (arr vs) = strings_of vs
hashes_in _ = []

unfoldable pub load_payload : Value → Result (List String)
unfolding hashes_in
load_payload payload = do
  hashes ← get_or payload "registered_hashes" (arr nil)
  ok (hashes_in hashes)

unfoldable pub load_state_hashes : Option (Option Value) → Result (List String)
unfolding load_payload
load_state_hashes none = ok []
load_state_hashes (some none) = ok []
load_state_hashes (some (some payload)) = load_payload payload

-- `hashes.add(hash_value)`
unfoldable pub add_hash : String → List String → List String
add_hash h hashes = if contains hashes h then hashes else h ∷ hashes

unfoldable pub state_value : List String → Value
state_value hashes = dict (("registered_hashes", list (texts (sorted_set hashes))) ∷ [])

unfoldable pub write_state : State → String → Result (List String) → Result (Unit {0}) × State
unfolding add_hash state_value
write_state st h (raise e) = (raise e, st)
write_state st h (ok existing) =
    (ok tt, record st { state_file = some (some (state_value (add_hash h existing))) })

-- The hash is in the process before the file is read.
unfoldable pub store_hash : String → State → Result (Unit {0}) × State
unfolding write_state add_hash
store_hash h st =
    let st' : State = record st { registered = add_hash h st.registered } in
    elim st.state_file [
      | none ↦ (ok tt, st')
      | some file ↦ write_state st' h (load_state_hashes (some file))
    ]

-- `[hash_value for hash_value in block_hashes if hash_value not in available]`
unfoldable pub missing_from : List String → List String → List String
missing_from available [] = []
missing_from available (h ∷ hs) =
    let rest = missing_from available hs in if contains available h then rest else h ∷ rest

-- `_verify_from_state`: the missing hashes, of which none means success
unfoldable pub verify_from_state : List String → State → Result (List String)
unfolding missing_from
verify_from_state block_hashes st = do
  loaded ← load_state_hashes st.state_file
  ok (missing_from (st.registered ++ loaded) block_hashes)

-- The attribute `registered_hashes` of a runtime: not there, not there and not to be set, a set, a
-- list, or another object.
pub data RuntimeHashes : Type 0 where
  absent sealed other : RuntimeHashes
  hash_set hash_list : List String → RuntimeHashes

unfoldable pub note_runtime_hash : RuntimeHashes → String → RuntimeHashes
unfolding add_hash
note_runtime_hash absent h = hash_set (h ∷ [])
note_runtime_hash sealed h = sealed
note_runtime_hash other h = other
note_runtime_hash (hash_set hashes) h = hash_set (add_hash h hashes)
note_runtime_hash (hash_list hashes) h =
    hash_list (if contains hashes h then hashes else hashes ++ h ∷ [])

-- the missing hashes, where the runtime keeps a set or a list
unfoldable pub direct_verify_runtime : RuntimeHashes → List String → Option (List String)
unfolding missing_from
direct_verify_runtime (hash_set hashes) block_hashes = some (missing_from hashes block_hashes)
direct_verify_runtime (hash_list hashes) block_hashes = some (missing_from hashes block_hashes)
direct_verify_runtime _ block_hashes = none

noted :
    RuntimeHashes → String → Result (Unit {0}) × State → Result (Unit {0}) × State × RuntimeHashes
unfolding note_runtime_hash
noted hashes h (raise e, st) = (raise e, st, hashes)
noted hashes h (ok _, st) = (ok tt, st, note_runtime_hash hashes h)

-- what the hook registers after a success: a hash that is a text and not empty
unfoldable pub register_hash :
    Value → State → RuntimeHashes → Result (Unit {0}) × State × RuntimeHashes
unfolding noted
register_hash (str h) st hashes =
    if h == "" then (ok tt, st, hashes) else noted hashes h (store_hash h st)
register_hash _ st hashes = (ok tt, st, hashes)

-- the hook on `block_hashes`, for a runtime with no method of its own
unfoldable pub verify_block_hashes : List String → State → RuntimeHashes → Result (List String)
unfolding direct_verify_runtime verify_from_state
verify_block_hashes block_hashes st hashes = elim (direct_verify_runtime hashes block_hashes) [
  | some missing ↦ ok missing
  | none ↦ verify_from_state block_hashes st
]
