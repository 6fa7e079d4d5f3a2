-- ===== src/Tests/Returning.antt =====
-- The theorems on the return home, at a package, a graph and a report of the target.
use permeant_os.Prelude.{ℕ, ◌<>◌, List, [], ◌∷◌, ◌≡◌, ◌≢◌, refl, some, contains, true}
use permeant_os.Py.Value.{Value, str, dict, list, truthy, int, bool}
use permeant_os.Py.Result.{Result, ok, raise, value_error}
use permeant_os.Py.Path.{path, as_posix, PurePath, child}
use permeant_os.Constants.{runtime_id}
use permeant_os.Security.{
  validate_security_policy, check_signature, check_hooks, check_paths, check_secrets,
  check_credentials, check_provenance, check_tool, check_artifact, check_artifact_node,
  check_credential, build_security_attestation,
}
use permeant_os.Files.{
  file_sha256_and_size, copy_file_streaming_with_hash, copy_stream, append_chunk, write, open_read,
  same_path, stream_file, stream, stream_chunk_size, take, drop, digest_and_size, Files, read,
}
use permeant_os.Artifacts.{
  verify_artifacts, verify_all, verify_artifact, validate_artifact_manifest_entry,
  restore_artifacts, restore_artifact, plan_restore, plan_blob, locate, choose,
}
use permeant_os.Artifacts.Restore.{Below}
use permeant_os.VectorMemory.{validate_vector_memory}
use permeant_os.Import.{
  check_package, conclude, read_json, check_hashes, check_continuation, build_report, first_item,
  put_hash, hashes_of, ImportReport, import_session,
}
use permeant_os.Graph.{
  verify_graph, canonical_graph_hash, nodes_of_type, node_by_id, find_node,
  append_post_migration_node, append_to, seal, post_migration_node,
}
use permeant_os.Audit.{
  audit_tool_replay_safety, audit_nodes, audit_node, audit_call, resume_policy_of,
  reject_unsafe_tool_replay,
}
use permeant_os.Paths.{
  safe_package_relative_path, safe_workspace_relative_path, path_allowed_by_prefix,
}
use permeant_os.Hashing.{sha256_bytes, sha256_json, graph_root_signature}
use permeant_os.Prompt.{
  kv_prefix, tokenize_prompt, token_hash, simulated_kv_hash, token_bytes, kv_bytes, to_bytes2,
  to_bytes4, bytes_onto, deterministic_continue, reconstruct_prompt,
  reconstruct_prompt_from_messages, messages_of, prompt_lines,
}
use permeant_os.Py.Text.{take_chars, encode, decimal, join, starts_with, remove_prefix}
use permeant_os.Py.Dict.{
  in_set, pop, lookup, get_or, get_item, iter, set_item, insert, erase, merge,
}
use permeant_os.Secrets.{find_forbidden_secret_material, is_forbidden_key}
use permeant_os.Py.Equal.{py_eq, to_set, in_values, member}
use permeant_os.Py.Json.{dumps}
use permeant_os.Tests.{
  digest, floats, above, show, known, graph, value_of, package_dir, workspace, blob,
}
use permeant_os.Resume.{verify_resume_report_proof, report_hash}
use permeant_os.ReturnHome.Checks.{
  Evidence, remote_artifact, check_evidence, check_report, check_graph, check_artifact_evidence,
  check_bytes, first_written, artifact_hash_of, int_of,
}
use permeant_os.ReturnHome.Work.{
  record_return, extend_with, return_edges, continuation_payload, returned_memory_payload,
  return_event_payload,
}
use permeant_os.ReturnHome.{
  return_home_after_target_resume, return_imported, return_checked, read_evidence,
  write_continuation, continue_home, conclude_return, write_roundtrip_report, roundtrip_report,
}
use permeant_os.ReturnHome.Effects.{TargetProven, return_home_writes}
use permeant_os.ReturnHome.Recorded.{CameHome}
use permeant_os.ReturnHome.Outcome.{return_home_sound}
use permeant_os.Tests.Sessions.{manifest}

abbrev target_graph : Value
target_graph = dict (
    ("graph_id", str "graph:1")
    ∷ ("nodes", list (dict (("id", str remote_artifact) ∷ ("sha256", str "9f86") ∷ []) ∷ []))
    ∷ ("edges", list [])
    ∷ ("lineage", list [])
    ∷ ("graph_hash", str known)
    ∷ [])

abbrev target_report : Value
target_report = dict (
    ("status", str "continued")
    ∷ ("activity_continued", bool true)
    ∷ ("pre_resume_graph_hash", str known)
    ∷ ("post_resume_graph_hash", str known)
    ∷ ("written_artifacts", list (dict (("sha256", str known) ∷ ("size_bytes", int 2) ∷ []) ∷ []))
    ∷ ("proof_hash", str known)
    ∷ [])

abbrev graph_path : PurePath
graph_path = record { absolute = true; parts = "target" ∷ "graph.json" ∷ [] }

abbrev report_path : PurePath
report_path = record { absolute = true; parts = "target" ∷ "report.json" ∷ [] }

-- a parser of four files
abbrev loads : List ℕ → Result Value
loads [] = raise value_error
loads (a ∷ []) = ok manifest
loads (a ∷ b ∷ []) = ok graph
loads (a ∷ b ∷ c ∷ []) = ok target_graph
loads (a ∷ b ∷ c ∷ d ∷ bytes) = ok target_report

abbrev parse_int : Value → Result Value
parse_int v = raise value_error

abbrev returned : Files
returned =
    (record { absolute = true; parts = "package" ∷ "manifest.json" ∷ [] }, 123 ∷ [])
    ∷ (record { absolute = true; parts = "package" ∷ "graph.json" ∷ [] }, 123 ∷ 125 ∷ [])
    ∷ (blob, 35 ∷ 10 ∷ [])
    ∷ (graph_path, 123 ∷ 125 ∷ 10 ∷ [])
    ∷ (report_path, 123 ∷ 32 ∷ 125 ∷ 10 ∷ [])
    ∷ []

abbrev outcome : Result Value × Files
outcome =
    return_home_after_target_resume digest floats show loads parse_int above package_dir graph_path
      report_path (some workspace) (some blob) returned

abbrev origin : Result ImportReport × Files
origin =
    import_session loads floats above digest show package_dir
      (some (child workspace (path "origin-import"))) runtime_id returned

came_home : outcome.0 ≡ ok (value_of outcome.0)
unfolding import_session check_package conclude read_json check_hashes check_continuation
    build_report first_item put_hash hashes_of verify_graph canonical_graph_hash
    audit_tool_replay_safety audit_nodes audit_node audit_call resume_policy_of
    reject_unsafe_tool_replay validate_vector_memory verify_artifacts verify_all verify_artifact
    validate_artifact_manifest_entry restore_artifacts restore_artifact plan_restore plan_blob
    locate choose safe_package_relative_path safe_workspace_relative_path file_sha256_and_size
    copy_file_streaming_with_hash write open_read read same_path stream_file copy_stream
    append_chunk stream stream_chunk_size take drop digest_and_size sha256_bytes tokenize_prompt
    token_hash simulated_kv_hash token_bytes kv_bytes to_bytes2 to_bytes4 bytes_onto
    deterministic_continue reconstruct_prompt reconstruct_prompt_from_messages messages_of
    prompt_lines take_chars in_set pop decimal join validate_security_policy
    build_security_attestation check_signature check_hooks check_paths check_secrets
    check_credentials check_provenance check_tool check_artifact check_artifact_node
    check_credential graph_root_signature nodes_of_type path_allowed_by_prefix
    find_forbidden_secret_material lookup get_or get_item iter path as_posix py_eq to_set in_values
    truthy contains ◌<>◌ member sha256_json encode dumps is_forbidden_key kv_prefix
    return_home_after_target_resume return_imported return_checked read_evidence check_evidence
    check_report check_graph check_artifact_evidence check_bytes verify_resume_report_proof
    report_hash first_written artifact_hash_of int_of starts_with remove_prefix node_by_id find_node
    write_continuation continue_home record_return append_post_migration_node append_to extend_with
    return_edges conclude_return write_roundtrip_report roundtrip_report seal set_item insert erase
    continuation_payload returned_memory_payload return_event_payload post_migration_node merge
came_home = refl

return_home_sound_example :
    (i : ImportReport) × (origin.0 ≡ ok i)
    × ((e : Evidence) × TargetProven digest floats show loads parse_int package_dir graph_path
          report_path
          (some blob)
          origin.1
          e
        × CameHome digest floats show workspace e i.continued (value_of outcome.0) outcome.1)
return_home_sound_example =
    return_home_sound digest floats show loads parse_int package_dir graph_path report_path
      (some blob) above (some workspace) returned (value_of outcome.0) came_home

return_home_writes_example :
    (¬ (Below workspace blob) → read blob outcome.1 ≡ read blob returned)
    × (read blob outcome.1 ≢ read blob origin.1
        → (i : ImportReport) × (origin.0 ≡ ok i)
          × ((e : Evidence) × TargetProven digest floats show loads parse_int package_dir graph_path
                report_path
                (some blob)
                origin.1
                e))
return_home_writes_example =
    return_home_writes digest floats show loads parse_int package_dir graph_path report_path
      (some blob) above blob (some workspace) returned
