-- ===== src/Tests/Packages.antt =====
-- The theorems on exported packages and their attestation, at concrete values.
use permeant_os.Prelude.{contains, ◌<>◌, [], ◌≡◌, refl, some}
use permeant_os.Py.Value.{truthy, Value, str}
use permeant_os.Py.Result.{ok}
use permeant_os.Py.Text.{encode, join}
use permeant_os.Py.Indent.{dumps_indented}
use permeant_os.Py.Dict.{
  pop, set_item, insert, merge, lookup, erase, iter, get_item, get_or, in_set,
}
use permeant_os.Constants.{trusted_signer_id}
use permeant_os.Security.{build_security_attestation, check_signature}
use permeant_os.Security.Roundtrip.{check_signature-build}
use permeant_os.Files.{read}
use permeant_os.Artifacts.{build_artifact_record_from_bytes, disposition_for, ExportPolicy}
use permeant_os.Export.Package.{
  build_package, run_reference_session, write_package, build_manifest, Package, export_session,
}
use permeant_os.Export.Written.{Whole, manifest_file, graph_file, export_session_writes}
use permeant_os.Prompt.{
  reconstruct_prompt_from_messages, prompt_lines, token_hash, token_bytes, tokenize_prompt,
  to_bytes2, to_bytes4, bytes_onto, simulated_kv_hash, kv_bytes, kv_prefix,
}
use permeant_os.Hashing.{sha256_bytes}
use permeant_os.Graph.{seal, canonical_graph_hash, nodes_of_type, base_node}
use permeant_os.VectorMemory.{
  build_vector_snapshot, snap_all, memory_text, score_records, sort_results,
}
use permeant_os.Audit.{
  audit_tool_replay_safety, audit_nodes, audit_node, audit_call, resume_policy_of,
}
use permeant_os.Export.{build_graph, message_nodes, message_node, work_nodes, graph_value}
use permeant_os.Export.Nodes.{
  node, start_node, write_call_node, write_result_node, report_node, memory_node, checkpoint_node,
  retrieval_node, kv_span_node, credential_node, artifact_node_payload,
}
use permeant_os.Embeddings.{vector_retrieval_payload}
use permeant_os.Tests.{digest, floats, above, show, graph, package_dir, files, value_of}

abbrev security : Value
unfolding build_security_attestation
security = value_of (build_security_attestation digest graph)

attested : build_security_attestation digest graph ≡ ok security
unfolding build_security_attestation get_item lookup
attested = refl

check_signature-build_example : check_signature digest graph security ≡ ok (str trusted_signer_id)
check_signature-build_example = check_signature-build digest graph security attested

abbrev policy : ExportPolicy
policy = record { exclude_paths = []; redact_paths = [] }

abbrev manifest : Value
manifest = value_of (export_session floats above digest show package_dir policy files).0

exports : (export_session floats above digest show package_dir policy files).0 ≡ ok manifest
unfolding export_session build_package run_reference_session write_package build_manifest
    reconstruct_prompt_from_messages prompt_lines token_hash token_bytes tokenize_prompt to_bytes2
    to_bytes4 bytes_onto simulated_kv_hash kv_bytes kv_prefix encode join sha256_bytes
    dumps_indented seal canonical_graph_hash nodes_of_type base_node pop set_item insert merge
    lookup erase iter get_item get_or in_set build_vector_snapshot snap_all memory_text
    score_records sort_results audit_tool_replay_safety audit_nodes audit_node audit_call
    resume_policy_of build_graph message_nodes message_node work_nodes graph_value node start_node
    write_call_node write_result_node report_node memory_node checkpoint_node retrieval_node
    kv_span_node credential_node artifact_node_payload vector_retrieval_payload
    build_artifact_record_from_bytes disposition_for truthy contains ◌<>◌ build_security_attestation
exports = refl

export_session_writes_example :
    (p : Package) × (p.manifest ≡ manifest)
    × Whole floats above digest show p
    × (read
          (manifest_file package_dir)
          (export_session floats above digest show package_dir policy files).1
        ≡ some (encode (dumps_indented 0 p.manifest <> "\n")))
    × (read
          (graph_file package_dir)
          (export_session floats above digest show package_dir policy files).1
        ≡ some (encode (dumps_indented 0 p.graph <> "\n")))
export_session_writes_example =
    export_session_writes floats above digest show package_dir policy files manifest exports
