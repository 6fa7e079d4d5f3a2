-- ===== src/Tests/Exporting.antt =====
-- The theorems on prompts, tokens and exported graphs, at a small session.
use permeant_os.Prelude.{
  ℕ, String, ◌≡◌, refl, List, [], ◌∷◌, ◌≤◌, length, some, false, Some, inr, All, inl, arith,
}
use permeant_os.Py.Value.{Value}
use permeant_os.Py.Result.{ok, ◌>>=◌, raise, unicode_encode_error}
use permeant_os.Py.Dict.{get_item}
use permeant_os.Graph.{verify_graph}
use permeant_os.Artifacts.{ArtifactRecord}
use permeant_os.Audit.{audit_tool_replay_safety, reject_unsafe_tool_replay}
use permeant_os.Prompt.{
  token_hash, simulated_kv_hash, token_bytes, to_bytes2, bytes_onto, reconstruct_prompt,
  reconstruct_prompt_from_messages, tokenize_code_points, is_surrogate,
}
use permeant_os.Py.Text.{utf8_char}
use permeant_os.Prompt.Tokens.{IsSurrogate, tokenize_code_points-hashed}
use permeant_os.Prompt.Encoding.{token_bytes-injective}
use permeant_os.Export.{LocalSession, build_graph}
use permeant_os.Export.Messages.{said, build_graph-reconstruct}
use permeant_os.Export.Replay.{written, build_graph-replay}
use permeant_os.Tests.{floats, show, digest, value_of}

abbrev session : LocalSession
session = record {
  messages = record { role = "user"; content = "Write it." } ∷ [];
  artifact_path = "reports/a.md";
  artifact_bytes = 35 ∷ 10 ∷ [];
  deterministic_response = "Done.";
}

abbrev artifact_record : ArtifactRecord
artifact_record = record {
  path = "reports/a.md";
  content_hash = "sha256:9f86";
  size_bytes = 2;
  media_type = "application/json";
  disposition = "packaged";
  blob_path = some "artifacts/sha256/9f/9f86/a.md";
  restore_policy = "required";
  target_path = "reports/a.md";
  rebind_required = false;
}

abbrev prompt : String
prompt = "<user>"

-- "<é", and an escape "\ud800" between them
abbrev code_points : List ℕ
code_points = 60 ∷ 233 ∷ []

abbrev broken : List ℕ
broken = 60 ∷ 55296 ∷ 233 ∷ []

code_points_tokens : tokenize_code_points code_points ≡ ok (60 ∷ 195 ∷ 169 ∷ [])
unfolding tokenize_code_points utf8_char is_surrogate
code_points_tokens = refl

broken_raises : tokenize_code_points broken ≡ raise unicode_encode_error
broken_raises = (tokenize_code_points-hashed digest broken).0 (inr (inl (omega arith, omega arith)))

tokenize_code_points-hashed_example :
    (Some IsSurrogate code_points → tokenize_code_points code_points ≡ raise unicode_encode_error)
    × (All (λ c. ¬ IsSurrogate c) code_points
        → (tokens : List ℕ) × (tokenize_code_points code_points ≡ ok tokens)
          × ((h : String) × (token_hash digest tokens ≡ ok h))
          × (length tokens ≤ 4294967296 → (h : String) × (simulated_kv_hash digest tokens ≡ ok h)))
tokenize_code_points-hashed_example = tokenize_code_points-hashed digest code_points

abbrev tokens : List ℕ
tokens = 300 ∷ 7 ∷ []

fed : token_bytes tokens ≡ ok (1 ∷ 44 ∷ 0 ∷ 7 ∷ [])
unfolding token_bytes to_bytes2 bytes_onto
fed = refl

token_bytes-injective_example : tokens ≡ tokens
token_bytes-injective_example = token_bytes-injective tokens tokens (1 ∷ 44 ∷ 0 ∷ 7 ∷ []) fed fed

build_graph-reconstruct_example :
    (graph : Value) × (build_graph floats digest session artifact_record prompt ≡ ok graph)
    × ((do h ← get_item graph "graph_hash"; verify_graph digest graph h) ≡ ok tt)
    × (reconstruct_prompt show graph
        ≡ reconstruct_prompt_from_messages show (said session.messages))
build_graph-reconstruct_example =
    build_graph-reconstruct floats digest show session artifact_record prompt

abbrev built : Value
built = value_of (build_graph floats digest session artifact_record prompt)

is_built : build_graph floats digest session artifact_record prompt ≡ ok built
is_built =
    let (g, e, _, _) = build_graph-reconstruct floats digest show session artifact_record prompt in
    rw e

build_graph-replay_example :
    (audit_tool_replay_safety built ≡ ok (written ∷ []))
    × ((audit_tool_replay_safety built >>= reject_unsafe_tool_replay) ≡ ok tt)
build_graph-replay_example =
    build_graph-replay floats digest session artifact_record prompt built is_built
