-- ===== src/SpanMetadata.antt =====
-- adapters/agent_graph_span_metadata.py: the metadata that ties the prompt of a live prefill to its
-- KV spans. The error of this module is `invalid`, as that of the local agent.
pub mod Validate
pub mod Hashes
pub mod Named
pub mod Sound
pub mod Accepts
pub mod Roundtrip
use permeant_os.Prelude.{
  ℕ, zero, suc, ◌+◌, String, ◌<>◌, Bool, true, false, not, ◌&&◌, ◌||◌, List, [], ◌∷◌, ◌++◌, Option,
  none, some, code, eqb, leb, if◌then◌else◌, length, ◌==◌,
}
use permeant_os.Py.Value.{Value, str, int, bool, dict, list}
use permeant_os.Py.Result.{Result, ok, raise, invalid, ◌>>=◌, ◌>>◌, reject_if}
use permeant_os.Py.Text.{encode, decimal, starts_with, drop_chars}
use permeant_os.Hashing.{sha256_bytes}
use permeant_os.Prompt.{to_bytes4}

-- A Python integer as a token id.
pub data TokenId : Type 0 where
  token : ℕ → TokenId
  -- `negative n` is -(n + 1)
  negative : ℕ → TokenId

-- `[0-9a-f]`
unfoldable pub is_hex : ℕ → Bool
is_hex c = leb 48 c && leb c 57 || leb 97 c && leb c 102

-- `[0-9a-f]{n}$`: the end of a pattern also stands before a last line break.
unfoldable pub hex_to_end : ℕ → String → Bool
unfolding is_hex
hex_to_end zero String.[] = true
hex_to_end zero (String.◌∷◌ c String.[]) = eqb (code c) 10
hex_to_end zero (String.◌∷◌ c (String.◌∷◌ d s)) = false
hex_to_end (suc n) String.[] = false
hex_to_end (suc n) (String.◌∷◌ c s) = is_hex (code c) && hex_to_end n s

-- `SHA256_RE.match(text)`
unfoldable pub sha256_re : String → Bool
unfolding hex_to_end starts_with drop_chars
sha256_re s = starts_with s "sha256:" && hex_to_end 64 (drop_chars 7 s)

unfoldable pub ensure_sha256 : String → Value → Result String
ensure_sha256 name (str s) =
    if sha256_re s then ok s else raise (invalid "{} must be a sha256: hash" (str name ∷ []))
ensure_sha256 name _ = raise (invalid "{} must be a sha256: hash" (str name ∷ []))

-- a text that is not empty
unfoldable pub require_text : String → Value → Result String
require_text message (str s) = do reject_if (s == "") (invalid message []); ok s
require_text message _ = raise (invalid message [])

-- what `token_hash` feeds to its hasher
unfoldable pub token_id_bytes : List TokenId → Result (List ℕ)
token_id_bytes [] = ok []
token_id_bytes (token n ∷ ids) = do
  let rest = token_id_bytes ids
  bytes ← to_bytes4 n
  more ← rest
  ok (bytes ++ more)
token_id_bytes (negative n ∷ ids) = raise (invalid "token ids must be non-negative" [])

-- the name of a block hash in an error
abbrev pub block_name : ℕ → ℕ → String
block_name index hash_index =
    "kv_spans[" <> decimal index <> "].block_hashes[" <> decimal hash_index <> "]"

-- the loop over the block hashes of a span, from an index on
unfoldable pub ensure_hashes : ℕ → ℕ → List Value → Result (Unit {0})
unfolding ensure_sha256
ensure_hashes index hash_index [] = ok tt
ensure_hashes index hash_index (h ∷ hashes) = ensure_sha256 (block_name index hash_index) h >>= λ _.
    ensure_hashes index (hash_index + 1) hashes

module _ (hexdigest : List ℕ → String) where
  unfoldable pub token_hash : List TokenId → Result String
  token_hash ids = do bytes ← token_id_bytes ids; ok (sha256_bytes hexdigest bytes)

  -- `block_hashes or [token_hash(token_ids)]`
  unfoldable pub block_hashes_or : Option (List Value) → List TokenId → Result (List Value)
  block_hashes_or (some (h ∷ hashes)) ids = ok (h ∷ hashes)
  block_hashes_or _ ids = do h ← token_hash ids; ok (str h ∷ [])

  unfoldable pub metadata_value :
      String
      → String
      → String
      → String
      → List TokenId
      → String
      → String
      → String
      → List Value
      → Value
  metadata_value runtime model_id prompt ids_hash ids tokenizer_hash node_id cache_ref hashes =
      dict (
        ("version", str "0.1")
        ∷ ("source_runtime", str runtime)
        ∷ ("model_id", str model_id)
        ∷ (
          "prompt",
          dict (
              ("byte_hash", str (sha256_bytes hexdigest (encode prompt)))
              ∷ ("token_hash", str ids_hash)
              ∷ ("token_count", int (length ids))
              ∷ ("tokenizer_hash", str tokenizer_hash)
              ∷ []),
        )
        ∷ (
          "kv_spans",
          list (
              dict (
                ("node_id", str node_id)
                ∷ ("token_start", int 0)
                ∷ ("token_end", int (length ids))
                ∷ ("cache_ref", str cache_ref)
                ∷ ("tokenizer_hash", str tokenizer_hash)
                ∷ ("block_hashes", list hashes)
                ∷ [])
              ∷ []),
        )
        ∷ (
          "binding",
          dict (
              ("prompt_used_for_prefill", bool true)
              ∷ ("same_prompt_required_on_target", bool true)
              ∷ []),
        )
        ∷ [])

  unfoldable pub build_prompt_span_metadata :
      Value
      → List TokenId
      → Value
      → Value
      → Value
      → String
      → String
      → Option (List Value)
      → Result Value
  build_prompt_span_metadata prompt ids tokenizer_hash model_id runtime cache_ref node_id
        block_hashes =
      do
        prompt_text ← require_text "prompt must be a non-empty string" prompt
        reject_if (eqb (length ids) 0) (invalid "token_ids must not be empty" [])
        model ← require_text "model_id must be a non-empty string" model_id
        source_runtime ← require_text "runtime must be a non-empty string" runtime
        tokenizer ← ensure_sha256 "tokenizer_hash" tokenizer_hash
        hashes ← block_hashes_or block_hashes ids
        ensure_hashes 0 0 hashes
        ids_hash ← token_hash ids
        ok (
            metadata_value source_runtime model prompt_text ids_hash ids tokenizer node_id cache_ref
              hashes)
