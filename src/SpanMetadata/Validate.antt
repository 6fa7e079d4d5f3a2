-- ===== src/SpanMetadata/Validate.antt =====
-- adapters/agent_graph_span_metadata.py: `validate_prompt_span_metadata`.
use permeant_os.Prelude.{
  ℕ, ◌+◌, String, ◌<>◌, Bool, true, false, not, ◌||◌, List, [], ◌∷◌, Option, none, some, eqb,
  length, ◌==◌,
}
use permeant_os.Py.Value.{
  Value, int, neg, bool, str, arr, obj, Items, nil, cons, dict, list, to_list, is_str,
}
use permeant_os.Py.Result.{Result, ok, raise, invalid, ◌>>=◌, ◌>>◌, reject_if}
use permeant_os.Py.Dict.{get}
use permeant_os.Py.Equal.{py_eq}
use permeant_os.Py.SortedSet.{texts, sorted_set}
use permeant_os.Py.Text.{encode, decimal}
use permeant_os.Hashing.{sha256_bytes}
use permeant_os.SpanMetadata.{
  TokenId, token, negative, ensure_sha256, require_text, token_hash, ensure_hashes,
}

-- What the target may know of its own prompt.
pub record Expected : Type 0 where
  pub prompt : Option String
  pub token_count : Option Value
  pub token_ids : Option Value
  pub tokenizer_hash : Option Value

-- What the metadata says of the prompt.
pub record Bound : Type 0 where
  pub byte_hash : String
  pub token_hash : String
  pub tokenizer_hash : String
  pub token_count : Value

unfoldable pub require_dict : String → Value → Result (Unit {0})
require_dict message (obj fs) = ok tt
require_dict message _ = raise (invalid message [])

-- a list that is not empty
unfoldable pub require_list : String → Value → Result (List Value)
require_list message (arr (cons v vs)) = ok (v ∷ to_list vs)
require_list message _ = raise (invalid message [])

-- `isinstance(value, int) and value > 0`
unfoldable pub is_positive : Value → Bool
is_positive (int n) = not (eqb n 0)
is_positive (bool b) = b
is_positive _ = false

-- An integer as a token id: `True` is 1.
unfoldable pub id_of : Value → Option TokenId
id_of (int n) = some (token n)
id_of (neg n) = some (negative n)
id_of (bool true) = some (token 1)
id_of (bool false) = some (token 0)
id_of _ = none

cons_id : Option TokenId → Option (List TokenId) → Option (List TokenId)
cons_id (some i) (some ids) = some (i ∷ ids)
cons_id _ _ = none

unfoldable pub ids_of : Items → Option (List TokenId)
unfolding id_of cons_id
ids_of nil = some []
ids_of (cons v vs) = cons_id (id_of v) (ids_of vs)

-- the ids, where every item of the list is an integer
unfoldable pub require_ids : Option (List TokenId) → Result (List TokenId)
require_ids none = raise (invalid "target prompt token ids must be an integer list" [])
require_ids (some ids) = ok ids

unfoldable pub token_ids_of : Value → Result (List TokenId)
unfolding ids_of require_ids
token_ids_of (arr vs) = require_ids (ids_of vs)
token_ids_of _ = raise (invalid "target prompt token ids must be an integer list" [])

unfoldable pub check_prompt : Value → Result Bound
check_prompt prompt = do
  require_dict "agent_graph_span_metadata.prompt must be an object" prompt
  b ← get prompt "byte_hash"
  byte_hash ← ensure_sha256 "prompt.byte_hash" b
  t ← get prompt "token_hash"
  ids_hash ← ensure_sha256 "prompt.token_hash" t
  k ← get prompt "tokenizer_hash"
  tokenizer_hash ← ensure_sha256 "prompt.tokenizer_hash" k
  token_count ← get prompt "token_count"
  reject_if (not (is_positive token_count))
      (invalid "prompt.token_count must be a positive integer" [])
  ok (record {
    byte_hash = byte_hash;
    token_hash = ids_hash;
    tokenizer_hash = tokenizer_hash;
    token_count = token_count;
  })

unfoldable pub check_count : Bound → Option Value → Result (Unit {0})
check_count b none = ok tt
check_count b (some n) =
    reject_if (not (py_eq n b.token_count))
      (invalid "target prompt token count does not match graph span metadata" [])

unfoldable pub check_tokenizer : Bound → Option Value → Result (Unit {0})
check_tokenizer b none = ok tt
check_tokenizer b (some h) = do
  tokenizer_hash ← ensure_sha256 "target tokenizer_hash" h
  reject_if (not (tokenizer_hash == b.tokenizer_hash))
      (invalid "target tokenizer hash does not match graph span metadata" [])

-- the beginning of an error on a span
abbrev pub span_name : ℕ → String
span_name index = "kv_spans[" <> decimal index <> "]"

-- one span, of which the cache reference is returned
unfoldable pub check_span : ℕ → Bound → Value → Result String
check_span index b span = do
  require_dict (span_name index <> " must be an object") span
  n ← get span "node_id"
  _ ← require_text (span_name index <> ".node_id must not be empty") n
  c ← get span "cache_ref"
  cache_ref ← require_text (span_name index <> ".cache_ref must not be empty") c
  start ← get span "token_start"
  stop ← get span "token_end"
  reject_if (not (py_eq start (int 0)) || not (py_eq stop b.token_count))
      (invalid (span_name index <> " must cover the full prompt token range") [])
  tokenizer_hash ← get span "tokenizer_hash"
  reject_if (not (is_str tokenizer_hash b.tokenizer_hash))
      (invalid (span_name index <> ".tokenizer_hash must match prompt.tokenizer_hash") [])
  blocks ← get span "block_hashes"
  hashes ← require_list (span_name index <> ".block_hashes must be a non-empty list") blocks
  ensure_hashes index 0 hashes
  ok cache_ref

unfoldable pub check_spans : ℕ → Bound → List Value → Result (List String)
unfolding check_span
check_spans index b [] = ok []
check_spans index b (span ∷ spans) = do
  let rest = check_spans (index + 1) b spans
  cache_ref ← check_span index b span
  cache_refs ← rest
  ok (cache_ref ∷ cache_refs)

abbrev pub is_some {ℓ} : {A : Type ℓ} → Option A → Bool
is_some none = false
is_some (some x) = true

unfoldable pub target_verified : Expected → Bool
target_verified e =
    is_some e.prompt || is_some e.token_count || is_some e.token_ids || is_some e.tokenizer_hash

unfoldable pub span_report : Bound → ℕ → List String → Expected → Value
span_report b span_count cache_refs expected = dict (
    ("success", bool true)
    ∷ ("prompt_byte_hash", str b.byte_hash)
    ∷ ("prompt_token_hash", str b.token_hash)
    ∷ ("tokenizer_hash", str b.tokenizer_hash)
    ∷ ("token_count", b.token_count)
    ∷ ("kv_span_count", int span_count)
    ∷ ("cache_refs", list (texts (sorted_set cache_refs)))
    ∷ ("target_tokenizer_view_verified", bool (target_verified expected))
    ∷ [])

module _ (hexdigest : List ℕ → String) where
  unfoldable pub check_expected_prompt : Bound → Option String → Result (Unit {0})
  check_expected_prompt b none = ok tt
  check_expected_prompt b (some prompt) =
      reject_if (not (sha256_bytes hexdigest (encode prompt) == b.byte_hash))
        (invalid "target prompt does not match graph span prompt byte hash" [])

  unfoldable pub check_token_ids : Bound → Option Value → Result (Unit {0})
  check_token_ids b none = ok tt
  check_token_ids b (some v) = do
    ids ← token_ids_of v
    reject_if (not (py_eq (int (length ids)) b.token_count))
        (invalid "target prompt token ids length does not match graph span metadata" [])
    h ← token_hash hexdigest ids
    reject_if (not (h == b.token_hash))
        (invalid "target prompt token hash does not match graph span metadata" [])

  unfoldable pub validate_prompt_span_metadata : Value → Expected → Result Value
  validate_prompt_span_metadata metadata expected = do
    require_dict "agent_graph_span_metadata must be an object" metadata
    version ← get metadata "version"
    reject_if (not (is_str version "0.1"))
        (invalid "agent_graph_span_metadata.version must be 0.1" [])
    runtime ← get metadata "source_runtime"
    _ ← require_text "source_runtime must be a non-empty string" runtime
    model ← get metadata "model_id"
    _ ← require_text "model_id must be a non-empty string" model
    prompt ← get metadata "prompt"
    b ← check_prompt prompt
    check_expected_prompt b expected.prompt
    check_count b expected.token_count
    check_token_ids b expected.token_ids
    check_tokenizer b expected.tokenizer_hash
    listed ← get metadata "kv_spans"
    spans ← require_list "agent_graph_span_metadata.kv_spans must be a non-empty list" listed
    cache_refs ← check_spans 0 b spans
    ok (span_report b (length spans) cache_refs expected)
