-- ===== src/Complex/Package.antt =====
-- examples/agent-memory-graph/local_agent.py: `export_complex_session`.
use permeant_os.Prelude.{ℕ, suc, String, Bool, List, [], ◌∷◌, length, if◌then◌else◌, map}
use permeant_os.Py.Value.{Value, str, int, dict, list}
use permeant_os.Py.Result.{Result, ok, raise, index_error, ◌>>=◌}
use permeant_os.Py.Dict.{get, get_item, set_item, iter, in_set}
use permeant_os.Py.Path.{PurePath, child, path}
use permeant_os.Constants.{pending_tool_statuses}
use permeant_os.Graph.{nodes_of_type}
use permeant_os.Audit.{entry_value, audit_tool_replay_safety}
use permeant_os.Security.{build_security_attestation}
use permeant_os.Files.{Files, write_json}
use permeant_os.Artifacts.{
  ArtifactRecord, ExportPolicy, build_artifact_record_from_bytes, manifest_artifact,
}
use permeant_os.Embeddings.{Floats}
use permeant_os.Prompt.{reconstruct_prompt_from_messages}
use permeant_os.VectorMemory.{build_vector_snapshot}
use permeant_os.Export.{build_graph}
use permeant_os.Export.Messages.{said}
use permeant_os.Export.Package.{build_manifest, snapshot_value, rmtree, write_blob}
use permeant_os.Complex.{
  complex_artifact_payloads, run_complex_session, extend_graph_for_complex_agent,
}

-- `len(value)` of something that can be iterated
size_of : Value → Result ℕ
size_of value = do listed ← iter value; ok (length listed)

-- the calls that are pending
unfoldable pub count_pending : List Value → Result ℕ
count_pending [] = ok 0
count_pending (call ∷ calls) = do
  let rest = count_pending calls
  status ← get call "status"
  pending ← in_set status pending_tool_statuses
  n ← rest
  ok (if pending then suc n else n)

unfoldable pub complexity_of : Value → ℕ → Result Value
unfolding size_of
complexity_of graph artifact_count = do
  nodes ← get_item graph "nodes"
  node_count ← size_of nodes
  edges ← get_item graph "edges"
  edge_count ← size_of edges
  calls ← nodes_of_type "tool_call" graph
  memories ← nodes_of_type "memory" graph
  retrievals ← nodes_of_type "retrieval" graph
  pending ← count_pending calls
  ok (
      dict (
        ("profile", str "complex-agent-continuity-v0")
        ∷ ("node_count", int node_count)
        ∷ ("edge_count", int edge_count)
        ∷ ("artifact_count", int artifact_count)
        ∷ ("tool_call_count", int (length calls))
        ∷ ("memory_count", int (length memories))
        ∷ ("retrieval_count", int (length retrievals))
        ∷ ("pending_tool_call_count", int pending)
        ∷ []))

-- `records[0]`
unfoldable pub first_record : List ArtifactRecord → Result ArtifactRecord
first_record [] = raise index_error
first_record (r ∷ records) = ok r

-- the blobs of the packaged artifacts, one after the other
unfoldable pub write_blobs : PurePath → List ArtifactRecord → List (String × List ℕ) → Files → Files
unfolding write_blob
write_blobs output_dir (r ∷ records) ((p, data_bytes) ∷ payloads) fs =
    write_blobs output_dir records payloads (write_blob output_dir r.blob_path data_bytes fs)
write_blobs output_dir _ _ fs = fs

-- what the export writes
pub record ComplexPackage : Type 0 where
  pub records : List ArtifactRecord
  pub graph : Value
  pub manifest : Value

unfoldable pub write_complex_package :
    PurePath → Result ComplexPackage → Files → Result Value × Files
write_complex_package output_dir (raise e) fs = (raise e, fs)
write_complex_package output_dir (ok p) fs = (
  ok p.manifest,
  write_json (child output_dir (path "manifest.json")) p.manifest (
      write_json (child output_dir (path "graph.json")) p.graph
        (write_blobs output_dir p.records complex_artifact_payloads (rmtree output_dir fs))),
)

module _ (floats : Floats) (above : String → String → Bool) (hexdigest : List ℕ → String)
    (show : Value → String) where
  unfoldable pub records_of : ExportPolicy → List (String × List ℕ) → List ArtifactRecord
  records_of policy payloads =
      map (λ (p, bytes). build_artifact_record_from_bytes hexdigest p bytes policy) payloads

  -- the fields of the manifest that the complex session replaces
  unfoldable pub revise_manifest : Value → Value → List ArtifactRecord → Result Value
  revise_manifest manifest graph records = do
    a ← set_item manifest "artifacts" (list (map manifest_artifact records))
    audit ← audit_tool_replay_safety graph
    b ← set_item a "side_effect_audit" (list (map entry_value audit))
    snapshot ← build_vector_snapshot floats above hexdigest show graph "report artifact complete"
    c ← set_item b "vector_memory" (snapshot_value floats above hexdigest show snapshot)
    security ← build_security_attestation hexdigest graph
    d ← set_item c "security" security
    complexity ← complexity_of graph (length records)
    set_item d "complexity" complexity

  unfoldable pub build_complex_package : ExportPolicy → Result ComplexPackage
  build_complex_package artifact_policy = do
    session ← run_complex_session hexdigest show
    prompt ← reconstruct_prompt_from_messages show (said session.messages)
    let records = records_of artifact_policy complex_artifact_payloads
    first ← first_record records
    built ← build_graph floats hexdigest session first prompt
    graph ← extend_graph_for_complex_agent floats above hexdigest show built records
    manifest ← build_manifest floats above hexdigest show graph session prompt first
    revised ← revise_manifest manifest graph records
    ok (record { records = records; graph = graph; manifest = revised })

  unfoldable pub export_complex_session : PurePath → ExportPolicy → Files → Result Value × Files
  unfolding write_complex_package
  export_complex_session output_dir artifact_policy fs =
      write_complex_package output_dir (build_complex_package artifact_policy) fs
