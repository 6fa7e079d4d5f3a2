-- ===== src/Tests/Archives.antt =====
-- The theorem on the export of the complex session, at a directory that holds a file.
use permeant_os.Prelude.{contains, ◌<>◌, [], ◌≡◌, refl, some, ◌∷◌}
use permeant_os.Py.Value.{truthy, Value}
use permeant_os.Py.Result.{ok, ◌>>=◌}
use permeant_os.Py.Text.{encode, join, text_leb}
use permeant_os.Py.Indent.{dumps_indented}
use permeant_os.Py.Dict.{
  pop, set_item, insert, merge, lookup, erase, iter, get_item, get_or, in_set,
}
use permeant_os.Security.{build_security_attestation}
use permeant_os.Files.{read}
use permeant_os.Artifacts.{build_artifact_record_from_bytes, disposition_for, ExportPolicy}
use permeant_os.Export.Package.{build_manifest}
use permeant_os.Export.Written.{manifest_file, graph_file}
use permeant_os.Prompt.{
  reconstruct_prompt_from_messages, prompt_lines, token_hash, token_bytes, tokenize_prompt,
  to_bytes2, to_bytes4, bytes_onto, simulated_kv_hash, kv_bytes, kv_prefix,
}
use permeant_os.Hashing.{sha256_bytes}
use permeant_os.Graph.{
  seal, canonical_graph_hash, nodes_of_type, base_node, verify_graph, append_to,
}
use permeant_os.VectorMemory.{
  build_vector_snapshot, snap_all, memory_text, score_records, sort_results, id_before, precedes,
}
use permeant_os.Audit.{
  audit_tool_replay_safety, audit_nodes, audit_node, audit_call, resume_policy_of,
}
use permeant_os.Export.{build_graph, message_nodes, message_node, work_nodes, graph_value}
use permeant_os.Export.Nodes.{
  node, start_node, write_call_node, write_result_node, report_node, memory_node, checkpoint_node,
  retrieval_node, kv_span_node, credential_node, artifact_node_payload,
}
use permeant_os.Embeddings.{vector_retrieval_payload}
use permeant_os.Tests.{digest, floats, above, show, package_dir, files, value_of}
use permeant_os.Complex.Nodes.{complex_edges, write_plan_node, read_quota_node, publish_node}
use permeant_os.Complex.Memory.{fidelity_node, evidence_node, pending_node}
use permeant_os.Complex.{
  describe_graph, additional_nodes, rest_of, record_at, set_inner, extend_list, replace_results,
  extend_graph_for_complex_agent, run_complex_session, complex_artifact_payloads,
}
use permeant_os.Complex.Package.{
  export_complex_session, write_complex_package, build_complex_package, revise_manifest, records_of,
  first_record, complexity_of, count_pending, ComplexPackage,
}
use permeant_os.Complex.Written.{export_complex_session_writes}
use permeant_os.Py.Equal.{py_eq}

abbrev policy : ExportPolicy
policy = record { exclude_paths = "reports/context/notes.md" ∷ []; redact_paths = [] }

abbrev manifest : Value
manifest = value_of (export_complex_session floats above digest show package_dir policy files).0

exports : (export_complex_session floats above digest show package_dir policy files).0 ≡ ok manifest
unfolding build_manifest reconstruct_prompt_from_messages prompt_lines token_hash token_bytes
    tokenize_prompt to_bytes2 to_bytes4 bytes_onto simulated_kv_hash kv_bytes kv_prefix encode join
    sha256_bytes dumps_indented seal canonical_graph_hash nodes_of_type base_node pop set_item
    insert merge lookup erase iter get_item get_or in_set build_vector_snapshot snap_all memory_text
    score_records sort_results audit_tool_replay_safety audit_nodes audit_node audit_call
    resume_policy_of build_graph message_nodes message_node work_nodes graph_value node start_node
    write_call_node write_result_node report_node memory_node checkpoint_node retrieval_node
    kv_span_node credential_node artifact_node_payload vector_retrieval_payload
    build_artifact_record_from_bytes disposition_for truthy contains ◌<>◌ build_security_attestation
    extend_graph_for_complex_agent describe_graph additional_nodes rest_of record_at set_inner
    extend_list replace_results complex_edges write_plan_node read_quota_node publish_node
    fidelity_node evidence_node pending_node append_to export_complex_session write_complex_package
    build_complex_package revise_manifest records_of first_record complexity_of count_pending
    run_complex_session complex_artifact_payloads id_before py_eq text_leb precedes
exports = refl

export_complex_session_writes_example :
    (p : ComplexPackage) × (p.manifest ≡ manifest)
    × ((do h ← get_item p.manifest "graph_hash"; verify_graph digest p.graph h) ≡ ok tt)
    × (read
          (manifest_file package_dir)
          (export_complex_session floats above digest show package_dir policy files).1
        ≡ some (encode (dumps_indented 0 p.manifest <> "\n")))
    × (read
          (graph_file package_dir)
          (export_complex_session floats above digest show package_dir policy files).1
        ≡ some (encode (dumps_indented 0 p.graph <> "\n")))
export_complex_session_writes_example =
    export_complex_session_writes floats above digest show package_dir policy files manifest exports
