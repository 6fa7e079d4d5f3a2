-- ===== src/Prompt.antt =====
-- examples/agent-memory-graph/local_agent.py: the prompt of a session and of a graph, its byte tokens,
-- the hashes of the tokens, and the continuation. `show` is the text that an f-string makes of an
-- object that is not a text.
pub mod Tokens
pub mod Encoding
use permeant_os.Prelude.{
  ℕ, zero, suc, ◌+◌, ◌*◌, ◌/◌, ◌%◌, String, ◌<>◌, List, [], ◌∷◌, ◌++◌, ltb, leb, ◌&&◌, Bool,
  if◌then◌else◌, map,
}
use permeant_os.Py.Value.{text_of, Value, str, is_str}
use permeant_os.Py.Result.{
  Result, ok, raise, overflow_error, type_error, unicode_encode_error, ◌>>=◌,
}
use permeant_os.Py.Dict.{get, get_item, iter}
use permeant_os.Py.Text.{encode, utf8_char, join, take_chars}
use permeant_os.Hashing.{sha256_bytes}

-- A code point that UTF-8 does not encode: a Python text has them, as `json.loads` makes of an escape
-- "\\ud800", a `String` has not.
unfoldable pub is_surrogate : ℕ → Bool
is_surrogate c = leb 55296 c && leb c 57343

-- `tokenize_prompt` of any Python text, given by its code points
unfoldable pub tokenize_code_points : List ℕ → Result (List ℕ)
unfolding is_surrogate utf8_char
tokenize_code_points [] = ok []
tokenize_code_points (c ∷ prompt) =
    let rest = tokenize_code_points prompt in
    if is_surrogate c
    then raise unicode_encode_error
    else (do tokens ← rest; ok (utf8_char c ++ tokens))

-- `tokenize_prompt` of a prompt without surrogates, which is what a `String` holds: the bytes of it.
-- Export, import and resume are modelled on such prompts.
unfoldable pub tokenize_prompt : String → List ℕ
tokenize_prompt prompt = encode prompt

-- the lowest `width` bytes of a number, the highest first, before `rest`
unfoldable pub bytes_onto : ℕ → ℕ → List ℕ → List ℕ
bytes_onto zero n rest = rest
bytes_onto (suc width) n rest = bytes_onto width (n / 256) (n % 256 ∷ rest)

-- `n.to_bytes(2, byteorder="big")`, and with 4
unfoldable pub to_bytes2 : ℕ → Result (List ℕ)
unfolding bytes_onto
to_bytes2 n = if ltb n 65536 then ok (bytes_onto 2 n []) else raise overflow_error

unfoldable pub to_bytes4 : ℕ → Result (List ℕ)
unfolding bytes_onto
to_bytes4 n = if ltb n 4294967296 then ok (bytes_onto 4 n []) else raise overflow_error

-- what `token_hash` feeds to its hasher
unfoldable pub token_bytes : List ℕ → Result (List ℕ)
token_bytes [] = ok []
token_bytes (t ∷ tokens) = do
  let rest = token_bytes tokens
  bytes ← to_bytes2 t
  more ← rest
  ok (bytes ++ more)

-- what the loop of `simulated_kv_hash` feeds to its hasher, from a position on
unfoldable pub kv_bytes : ℕ → List ℕ → Result (List ℕ)
kv_bytes position [] = ok []
kv_bytes position (t ∷ tokens) = do
  let rest = kv_bytes (position + 1) tokens
  place ← to_bytes4 position
  bytes ← to_bytes2 t
  more ← rest
  ok (place ++ (bytes ++ more))

-- `b"permeant-local-kv-v0\0"`
unfoldable pub kv_prefix : List ℕ
kv_prefix = encode "permeant-local-kv-v0" ++ 0 ∷ []

abbrev pub Messages : Type 0
Messages = List (Value × Value)

-- The lines of a prompt: `"\n".join` raises unless every content is a text.
unfoldable pub prompt_lines : (Value → String) → Messages → Result (List String)
prompt_lines show [] = ok []
prompt_lines show ((role, content) ∷ messages) =
    let rest = prompt_lines show messages in
    elim content [
      | str text ↦ (do
        more ← rest
        ok (("<" <> text_of show role <> ">") ∷ text ∷ ("</" <> text_of show role <> ">") ∷ more))
      | _ ↦ raise type_error
    ]

unfoldable pub reconstruct_prompt_from_messages : (Value → String) → Messages → Result String
reconstruct_prompt_from_messages show messages = do
  lines ← prompt_lines show messages
  ok (join "\n" lines <> "\n")

-- the roles and the contents of the message nodes
unfoldable pub messages_of : List Value → Result Messages
messages_of [] = ok []
messages_of (node ∷ nodes) = do
  let rest = messages_of nodes
  t ← get node "type"
  if is_str t "message"
      then (do
        role ← get_item node "role"
        content ← get_item node "content"
        more ← rest
        ok ((role, content) ∷ more))
      else rest

unfoldable pub reconstruct_prompt : (Value → String) → Value → Result String
reconstruct_prompt show graph = do
  nodes ← get_item graph "nodes"
  listed ← iter nodes
  messages ← messages_of listed
  reconstruct_prompt_from_messages show messages

module _ (hexdigest : List ℕ → String) where
  unfoldable pub token_hash : List ℕ → Result String
  token_hash tokens = do bytes ← token_bytes tokens; ok (sha256_bytes hexdigest bytes)

  unfoldable pub simulated_kv_hash : List ℕ → Result String
  simulated_kv_hash tokens = do
    bytes ← kv_bytes 0 tokens
    ok (sha256_bytes hexdigest (kv_prefix ++ bytes))

  unfoldable pub deterministic_continue : String → String → String
  deterministic_continue prompt artifact_hash =
      "Deterministic continuation: report verified with digest "
      <> take_chars 16 (hexdigest (encode (prompt <> "\n" <> artifact_hash)))
      <> "."
