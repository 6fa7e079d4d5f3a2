-- ===== src/Export/Package.antt =====
-- examples/agent-memory-graph/local_agent.py: the reference session, the manifest, and the package
-- that `export_session` writes.
use permeant_os.Prelude.{
  ℕ, String, ◌<>◌, Bool, true, false, ◌&&◌, List, [], ◌∷◌, length, if◌then◌else◌, Option, none,
  some, map, ◌==◌,
}
use permeant_os.Py.Value.{Value, str, int, float, dict, list}
use permeant_os.Py.Result.{Result, ok, raise, ◌>>=◌}
use permeant_os.Py.Dict.{get_item}
use permeant_os.Py.Text.{encode}
use permeant_os.Py.Indent.{dumps_indented}
use permeant_os.Py.Path.{PurePath, child, path}
use permeant_os.Constants.{
  created_at, artifact_store_version, restore_policy_version, vector_store_ref, embedding_model,
  embedding_dim,
}
use permeant_os.Hashing.{sha256_bytes}
use permeant_os.Audit.{entry_value, audit_tool_replay_safety}
use permeant_os.Security.{build_security_attestation}
use permeant_os.Files.{write_json, Files, write, same_path}
use permeant_os.Artifacts.{
  ArtifactRecord, ExportPolicy, build_artifact_record_from_bytes, manifest_artifact,
  artifact_policy_entries,
}
use permeant_os.Embeddings.{Floats, embedding_hash}
use permeant_os.Prompt.{
  tokenize_prompt, token_hash, simulated_kv_hash, deterministic_continue,
  reconstruct_prompt_from_messages,
}
use permeant_os.VectorMemory.{Snapped, Snapshot, ranked, build_vector_snapshot}
use permeant_os.Export.Nodes.{tokenizer_hash}
use permeant_os.Export.Messages.{said}
use permeant_os.Export.{Message, LocalSession, build_graph}

abbrev pub message : String → String → Message
message r c = record { role = r; content = c }

reference_payload : Value
reference_payload = dict (
    ("status", str "complete")
    ∷ ("title", str "Agent Memory Graph local export")
    ∷ (
      "findings",
      list (
          str "conversation state is reconstructable"
          ∷ str "tool output artifacts are content-addressed"
          ∷ str "continuation is deterministic after import"
          ∷ []),
    )
    ∷ [])

reference_messages : String → List Message
reference_messages artifact_hash =
    message "system" "You are the PermeantOS local reference agent."
    ∷ message "user" "Create a short migration report and remember its artifact."
    ∷ message "assistant" "I will write a deterministic report artifact."
    ∷ message "tool" ("fs.write_file wrote reports/result.json with " <> artifact_hash <> ".")
    ∷ message "assistant" "The report artifact is complete and ready for migration."
    ∷ []

module _ (hexdigest : List ℕ → String) (show : Value → String) where
  -- a session of messages about one artifact
  unfoldable pub session_of : List Message → String → List ℕ → Result LocalSession
  session_of messages artifact_path bytes = do
    prompt ← reconstruct_prompt_from_messages show (said messages)
    ok (record {
      messages = messages;
      artifact_path = artifact_path;
      artifact_bytes = bytes;
      deterministic_response =
          deterministic_continue hexdigest prompt (sha256_bytes hexdigest bytes);
    })

  unfoldable pub run_reference_session : Result LocalSession
  unfolding session_of reference_payload reference_messages
  run_reference_session =
      let bytes = encode (dumps_indented 0 reference_payload <> "\n") in
      session_of (reference_messages (sha256_bytes hexdigest bytes)) "reports/result.json" bytes

snapped_values : List Snapped → List Value
snapped_values [] = []
snapped_values (r ∷ rs) =
    dict (
      ("node_id", r.node_id)
      ∷ ("embedding", list (map float r.embedding))
      ∷ ("embedding_hash", str r.hash)
      ∷ ("text_hash", r.text_hash)
      ∷ [])
    ∷ snapped_values rs

policy_value : ArtifactRecord → Value
policy_value artifact = dict (
    ("version", str "artifact-export-policy-v0")
    ∷ ("excluded_artifacts", artifact_policy_entries artifact "excluded")
    ∷ ("redacted_artifacts", artifact_policy_entries artifact "redacted")
    ∷ [])

-- Whether a path is the directory itself or below it.
starts_parts : List String → List String → Bool
starts_parts [] parts = true
starts_parts (d ∷ dirs) [] = false
starts_parts (d ∷ dirs) (p ∷ parts) = d == p && starts_parts dirs parts

inside : PurePath → PurePath → Bool
inside dir p =
    same_path (record { absolute = dir.absolute; parts = [] })
      (record { absolute = p.absolute; parts = [] })
    && starts_parts dir.parts p.parts

-- `shutil.rmtree(dir)`
unfoldable pub rmtree : PurePath → Files → Files
unfolding inside starts_parts
rmtree dir [] = []
rmtree dir ((p, bytes) ∷ fs) =
    let rest = rmtree dir fs in if inside dir p then rest else (p, bytes) ∷ rest

unfoldable pub write_blob : PurePath → Option String → List ℕ → Files → Files
write_blob output_dir none bytes fs = fs
write_blob output_dir (some blob_path) bytes fs = write (child output_dir (path blob_path)) bytes fs

-- what an export writes
pub record Package : Type 0 where
  pub session : LocalSession
  pub artifact : ArtifactRecord
  pub graph : Value
  pub manifest : Value

module _ (floats : Floats) (above : String → String → Bool) (hexdigest : List ℕ → String)
    (show : Value → String) where
  -- the snapshot as the dictionary of the manifest
  unfoldable pub snapshot_value : Snapshot → Value
  unfolding snapped_values
  snapshot_value s = dict (
      ("mode", str "snapshot")
      ∷ ("vector_store_ref", str vector_store_ref)
      ∷ ("embedding_model", str embedding_model)
      ∷ ("embedding_dim", int embedding_dim)
      ∷ ("distance_metric", str "cosine")
      ∷ ("query_text", str s.query_text)
      ∷ ("query_hash", str (sha256_bytes hexdigest (encode s.query_text)))
      ∷ ("query_embedding_hash", str (embedding_hash floats hexdigest s.query_embedding))
      ∷ ("records", list (snapped_values s.records))
      ∷ ("expected_results", list (ranked 1 s.results))
      ∷ [])

  prompt_value : String → String → Value
  prompt_value prompt prompt_token_hash = dict (
      ("reconstruction", str "permeant-local-reference-template-v0")
      ∷ ("byte_hash", str (sha256_bytes hexdigest (encode prompt)))
      ∷ ("token_hash", str prompt_token_hash)
      ∷ ("tokenizer_hash", str (tokenizer_hash floats hexdigest))
      ∷ ("token_count", int (length (tokenize_prompt prompt)))
      ∷ [])

  unfoldable pub build_manifest : Value → LocalSession → String → ArtifactRecord → Result Value
  unfolding prompt_value policy_value snapshot_value
  build_manifest graph session prompt artifact = do
    snapshot ← build_vector_snapshot floats above hexdigest show graph "report artifact complete"
    graph_hash ← get_item graph "graph_hash"
    prompt_token_hash ← token_hash hexdigest (tokenize_prompt prompt)
    kv_hash ← simulated_kv_hash hexdigest (tokenize_prompt prompt)
    kv_spans ← get_item graph "kv_spans"
    audit ← audit_tool_replay_safety graph
    security ← build_security_attestation hexdigest graph
    ok (
        dict (
          ("manifest_version", str "0.1")
          ∷ ("created_at", str created_at)
          ∷ ("graph_path", str "graph.json")
          ∷ ("graph_hash", graph_hash)
          ∷ (
            "artifact_store",
            dict (
                ("version", str artifact_store_version)
                ∷ ("layout", str "sha256-prefix")
                ∷ ("root", str "artifacts/sha256")
                ∷ []),
          )
          ∷ (
            "restore_policy",
            dict (
                ("version", str restore_policy_version)
                ∷ ("target_root", str "workspace")
                ∷ ("path_mapping", str "preserve-relative-path")
                ∷ ("on_hash_mismatch", str "fail")
                ∷ ("on_missing_required", str "fail")
                ∷ ("on_unresolved_external", str "require_explicit_rebind")
                ∷ []),
          )
          ∷ ("prompt", prompt_value prompt prompt_token_hash)
          ∷ (
            "kv",
            dict (
                ("mode", str "simulated")
                ∷ ("cache_ref", str "kv:simulated:prompt")
                ∷ ("kv_hash", str kv_hash)
                ∷ []),
          )
          ∷ ("kv_spans", kv_spans)
          ∷ ("vector_memory", snapshot_value snapshot)
          ∷ ("side_effect_audit", list (map entry_value audit))
          ∷ ("artifact_policy", policy_value artifact)
          ∷ ("security", security)
          ∷ ("artifacts", list (manifest_artifact artifact ∷ []))
          ∷ ("deterministic_next_response", str session.deterministic_response)
          ∷ []))

  unfoldable pub build_package : ExportPolicy → Result Package
  build_package artifact_policy = do
    session ← run_reference_session hexdigest show
    prompt ← reconstruct_prompt_from_messages show (said session.messages)
    let artifact =
        build_artifact_record_from_bytes hexdigest session.artifact_path session.artifact_bytes
          artifact_policy
    graph ← build_graph floats hexdigest session artifact prompt
    manifest ← build_manifest graph session prompt artifact
    ok (record { session = session; artifact = artifact; graph = graph; manifest = manifest })

  unfoldable pub write_package : PurePath → Result Package → Files → Result Value × Files
  unfolding write_blob
  write_package output_dir (raise e) fs = (raise e, fs)
  write_package output_dir (ok p) fs = (
    ok p.manifest,
    write_json (child output_dir (path "manifest.json")) p.manifest (
        write_json (child output_dir (path "graph.json")) p.graph (
          write_blob output_dir p.artifact.blob_path p.session.artifact_bytes
            (rmtree output_dir fs))),
  )

  unfoldable pub export_session : PurePath → ExportPolicy → Files → Result Value × Files
  unfolding write_package
  export_session output_dir artifact_policy fs =
      write_package output_dir (build_package artifact_policy) fs
