-- ===== src/Tests/Sessions.antt =====
-- The theorems on imports, at a package of one artifact.
use permeant_os.Prelude.{
  ℕ, String, ◌<>◌, List, [], ◌∷◌, ◌≡◌, ◌≢◌, refl, some, contains, true, false,
}
use permeant_os.Py.Value.{Value, str, dict, list, truthy}
use permeant_os.Py.Result.{Result, ok, raise, value_error}
use permeant_os.Py.Path.{path, as_posix}
use permeant_os.Constants.{runtime_id, trusted_signer_id}
use permeant_os.Security.{
  validate_security_policy, check_signature, check_hooks, check_paths, check_secrets,
  check_credentials, check_provenance, check_tool, check_artifact, check_artifact_node,
  check_credential, build_security_attestation,
}
use permeant_os.Files.{
  file_sha256_and_size, copy_file_streaming_with_hash, copy_stream, append_chunk, write, open_read,
  same_path, stream_file, stream, stream_chunk_size, take, drop, digest_and_size, Files, read,
}
use permeant_os.Artifacts.{
  verify_artifacts, verify_all, verify_artifact, validate_artifact_manifest_entry,
  restore_artifacts, restore_artifact, plan_restore, plan_blob, locate, choose, Verified, Restored,
}
use permeant_os.Artifacts.Restore.{Below}
use permeant_os.VectorMemory.{validate_vector_memory, VectorReport}
use permeant_os.Import.{
  check_package, conclude, read_json, check_hashes, check_continuation, build_report, first_item,
  put_hash, hashes_of, Checked, ImportReport, import_session, workspace_or,
}
use permeant_os.Import.Reported.{Reported}
use permeant_os.Import.Accepted.{Trusted, Resumable}
use permeant_os.Import.Effects.{import_session_writes, import_session_sound}
use permeant_os.Tests.Calls.{entry}
use permeant_os.Graph.{verify_graph, canonical_graph_hash, nodes_of_type}
use permeant_os.Audit.{
  audit_tool_replay_safety, audit_nodes, audit_node, audit_call, resume_policy_of,
  reject_unsafe_tool_replay,
}
use permeant_os.Paths.{
  safe_package_relative_path, safe_workspace_relative_path, path_allowed_by_prefix,
}
use permeant_os.Hashing.{sha256_bytes, sha256_json, graph_root_signature}
use permeant_os.Prompt.{
  kv_prefix, tokenize_prompt, token_hash, simulated_kv_hash, token_bytes, kv_bytes, to_bytes2,
  to_bytes4, bytes_onto, deterministic_continue, reconstruct_prompt,
  reconstruct_prompt_from_messages, messages_of, prompt_lines,
}
use permeant_os.Py.Text.{take_chars, encode, decimal, join}
use permeant_os.Py.Dict.{in_set, pop, lookup, get_or, get_item, iter}
use permeant_os.Secrets.{find_forbidden_secret_material, is_forbidden_key}
use permeant_os.Py.Equal.{py_eq, to_set, in_values, member}
use permeant_os.Py.Json.{dumps}
use permeant_os.Tests.{
  digest, floats, above, show, known, graph, artifact, value_of, package_dir, workspace, blob,
}

abbrev pub response : String
response = "Deterministic continuation: report verified with digest 9f86."

abbrev pub manifest : Value
unfolding build_security_attestation
manifest = dict (
    ("graph_path", str "graph.json")
    ∷ ("graph_hash", str known)
    ∷ ("artifacts", list (artifact ∷ []))
    ∷ ("artifact_store", str "content-addressed-v0")
    ∷ ("prompt", dict (("byte_hash", str known) ∷ ("token_hash", str known) ∷ []))
    ∷ ("kv", dict (("kv_hash", str known) ∷ []))
    ∷ ("security", value_of (build_security_attestation digest graph))
    ∷ ("deterministic_next_response", str response)
    ∷ [])

-- a parser of two files
abbrev pub loads : List ℕ → Result Value
loads [] = raise value_error
loads (b ∷ []) = ok manifest
loads (b ∷ c ∷ bytes) = ok graph

abbrev pub shipped : Files
shipped =
    (record { absolute = true; parts = "package" ∷ "manifest.json" ∷ [] }, 123 ∷ [])
    ∷ (record { absolute = true; parts = "package" ∷ "graph.json" ∷ [] }, 123 ∷ 125 ∷ [])
    ∷ (blob, 35 ∷ 10 ∷ [])
    ∷ []

import_session_writes_example :
    (¬ (Below (workspace_or package_dir (some workspace)) blob)
      → read blob
          (import_session loads floats above digest show package_dir
            (some workspace)
            runtime_id
            shipped).1
        ≡ read blob shipped)
    × (read blob
            (import_session loads floats above digest show package_dir
              (some workspace)
              runtime_id
              shipped).1
          ≢ read blob shipped
        → (c : Checked) × Trusted loads floats above digest show package_dir runtime_id shipped c)
import_session_writes_example =
    import_session_writes loads floats above digest show package_dir blob (some workspace)
      runtime_id shipped

abbrev checked : Checked
checked = record {
  manifest = manifest;
  graph = graph;
  security = record {
    signer_id = str trusted_signer_id;
    target_runtime = runtime_id;
    provenance_events = 1;
  };
  side_effect_audit = entry ∷ [];
  vector_memory = VectorReport.not_present;
  verified_artifacts = Verified.blob (str "reports/a.md") (str "artifacts/a.md") known ∷ [];
}

abbrev report : ImportReport
report = record {
  graph_hash = str known;
  artifact_hashes = (str "reports/a.md", str known) ∷ [];
  artifact_store = str "content-addressed-v0";
  checked = checked;
  restored_workspace = workspace;
  restore_report =
      Restored.restored (str "reports/a.md")
        (record { absolute = false; parts = "reports" ∷ "a.md" ∷ [] }) (str "required") known 2
      ∷ [];
  continued = record {
    prompt_byte_hash = known;
    prompt_token_hash = known;
    kv_hash = known;
    deterministic_next_response = response;
  };
}

imported :
    (import_session loads floats above digest show package_dir
      (some workspace)
      runtime_id
      shipped).0
    ≡ ok report
unfolding import_session check_package conclude read_json check_hashes check_continuation
    build_report first_item put_hash hashes_of verify_graph canonical_graph_hash
    audit_tool_replay_safety audit_nodes audit_node audit_call resume_policy_of
    reject_unsafe_tool_replay validate_vector_memory verify_artifacts verify_all verify_artifact
    validate_artifact_manifest_entry restore_artifacts restore_artifact plan_restore plan_blob
    locate choose safe_package_relative_path safe_workspace_relative_path file_sha256_and_size
    copy_file_streaming_with_hash write open_read read same_path stream_file copy_stream
    append_chunk stream stream_chunk_size take drop digest_and_size sha256_bytes tokenize_prompt
    token_hash simulated_kv_hash token_bytes kv_bytes to_bytes2 to_bytes4 bytes_onto
    deterministic_continue reconstruct_prompt reconstruct_prompt_from_messages messages_of
    prompt_lines take_chars in_set pop decimal join validate_security_policy
    build_security_attestation check_signature check_hooks check_paths check_secrets
    check_credentials check_provenance check_tool check_artifact check_artifact_node
    check_credential graph_root_signature nodes_of_type path_allowed_by_prefix
    find_forbidden_secret_material lookup get_or get_item iter path as_posix py_eq to_set in_values
    truthy contains ◌<>◌ member sha256_json encode dumps is_forbidden_key kv_prefix
imported = refl

import_session_sound_example :
    Trusted loads floats above digest show package_dir runtime_id shipped report.checked
    × Resumable loads floats above digest show report.checked report.continued
    × ((l : List Restored) × ((restore_artifacts digest package_dir
            (workspace_or package_dir (some workspace))
            report.checked.manifest
            shipped).0
          ≡ ok l)
        × Reported report.checked
            (workspace_or package_dir (some workspace))
            l
            report.continued
            report)
import_session_sound_example =
    import_session_sound loads floats above digest show package_dir (some workspace) runtime_id
      shipped report imported
