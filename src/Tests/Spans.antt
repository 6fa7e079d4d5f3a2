-- ===== src/Tests/Spans.antt =====
-- The theorems on the metadata of KV spans, at a prompt of two tokens.
use permeant_os.Prelude.{
  ℕ, String, ◌<>◌, ◌≡◌, ◌↔◌, refl, List, [], ◌∷◌, none, some, length, true, All,
}
use permeant_os.Py.Value.{Value, str, int, list, arr, cons, to_list, Items}
use permeant_os.Py.Result.{ok}
use permeant_os.Py.Dict.{get, get_or, lookup}
use permeant_os.Py.Text.{decimal, encode, starts_with, drop_chars}
use permeant_os.Hashing.{sha256_bytes}
use permeant_os.Prompt.{to_bytes4, bytes_onto}
use permeant_os.Py.Equal.{py_eq}
use permeant_os.SpanMetadata.{
  is_hex, TokenId, token, token_hash, token_id_bytes, sha256_re, hex_to_end, ensure_sha256,
  require_text, ensure_hashes, block_hashes_or, metadata_value, build_prompt_span_metadata,
}
use permeant_os.SpanMetadata.Hashes.{hex_digits, Digest, ensure_sha256_iff}
use permeant_os.SpanMetadata.Validate.{
  require_dict, require_list, is_positive, ids_of, require_ids, token_ids_of, check_prompt,
  check_count, check_tokenizer, check_span, check_spans, check_expected_prompt, check_token_ids,
  Expected, Bound, validate_prompt_span_metadata, span_report,
}
use permeant_os.SpanMetadata.Accepts.{Agrees}
use permeant_os.SpanMetadata.Roundtrip.{validate-build}
use permeant_os.SpanMetadata.Named.{Names, Covers}
use permeant_os.SpanMetadata.Sound.{Matches, validate_prompt_span_metadata_sound}
use permeant_os.Tests.{value_of}

abbrev zeros : String
zeros = "0000000000000000000000000000000000000000000000000000000000000000"

abbrev hexdigest : List ℕ → String
hexdigest bytes = zeros

abbrev known : String
known = "sha256:" <> zeros

zeros-hex : (bytes : List ℕ) → hex_digits 64 (hexdigest bytes) ≡ true
unfolding hex_digits is_hex
zeros-hex bytes = refl

ensure_sha256_iff_example :
    (ensure_sha256 "tokenizer_hash" (str known) ≡ ok known)
    ↔ ((str known ≡ str known) × Digest known)
ensure_sha256_iff_example = ensure_sha256_iff "tokenizer_hash" known (str known)

abbrev ids : List TokenId
ids = token 7 ∷ token 65536 ∷ []

abbrev metadata : Value
unfolding build_prompt_span_metadata
metadata = value_of (
    build_prompt_span_metadata hexdigest (str "hello") ids (str known) (str "model") (str "vllm")
      "kv:live-prefill:prompt" "checkpoint:prompt" none)

builds :
    build_prompt_span_metadata hexdigest
      (str "hello")
      ids
      (str known)
      (str "model")
      (str "vllm")
      "kv:live-prefill:prompt"
      "checkpoint:prompt"
      none
    ≡ ok metadata
unfolding build_prompt_span_metadata require_text ensure_sha256 sha256_re hex_to_end starts_with
    drop_chars block_hashes_or token_hash token_id_bytes to_bytes4 bytes_onto ensure_hashes
    sha256_bytes ◌<>◌
builds = refl

validate-build_example :
    (text tokenizer ids_hash : String) × (str "hello" ≡ str text)
    × (str known ≡ str tokenizer)
    × (token_hash hexdigest ids ≡ ok ids_hash)
    × ((e : Expected)
        → Agrees hexdigest zeros-hex e text ids tokenizer
        → validate_prompt_span_metadata hexdigest metadata e
          ≡ ok (
              span_report
                (record {
                  byte_hash = sha256_bytes hexdigest (encode text);
                  token_hash = ids_hash;
                  tokenizer_hash = tokenizer;
                  token_count = int (length ids);
                })
                1
                ("kv:live-prefill:prompt" ∷ [])
                e))
validate-build_example =
    validate-build hexdigest zeros-hex (str "hello") (str known) (str "model") (str "vllm") metadata
      ids "kv:live-prefill:prompt" "checkpoint:prompt" none refl refl builds

abbrev held : Expected
held = record {
  prompt = some "hello";
  token_count = some (int 2);
  token_ids = some (list (int 7 ∷ int 65536 ∷ []));
  tokenizer_hash = some (str known);
}

accepts :
    validate_prompt_span_metadata hexdigest metadata held
    ≡ ok (value_of (validate_prompt_span_metadata hexdigest metadata held))
unfolding metadata_value require_text ensure_sha256 sha256_re hex_to_end starts_with drop_chars
    token_hash token_id_bytes to_bytes4 bytes_onto ensure_hashes sha256_bytes ◌<>◌
    validate_prompt_span_metadata require_dict require_list is_positive ids_of require_ids
    token_ids_of check_prompt check_count check_tokenizer check_span check_spans
    check_expected_prompt check_token_ids get_or lookup py_eq encode build_prompt_span_metadata
    block_hashes_or decimal
accepts = refl

validate_prompt_span_metadata_sound_example :
    (b : Bound) × (prompt first : Value) × (others : Items) × (get metadata "prompt" ≡ ok prompt)
    × Names prompt b
    × Matches hexdigest held b
    × (get metadata "kv_spans" ≡ ok (arr (cons first others)))
    × All (Covers b) (first ∷ to_list others)
validate_prompt_span_metadata_sound_example =
    validate_prompt_span_metadata_sound hexdigest metadata
      (value_of (validate_prompt_span_metadata hexdigest metadata held)) held accepts
