-- ===== src/Tests/Complexes.antt =====
-- The theorems on the complex session's graph, at small graphs.
use permeant_os.Prelude.{String, List, [], ◌∷◌, ◌≡◌, refl, none, true}
use permeant_os.Py.Value.{Value, str, dict, list}
use permeant_os.Py.Result.{ok, ◌>>=◌}
use permeant_os.Py.Dict.{get_item, get_or, set_item, lookup, insert, pop, iter, erase, merge}
use permeant_os.Graph.{
  verify_graph, seal, append_to, canonical_graph_hash, nodes_of_type, base_node,
}
use permeant_os.Artifacts.{ArtifactRecord}
use permeant_os.Embeddings.{vector_retrieval_payload}
use permeant_os.VectorMemory.{
  build_vector_snapshot, snap_all, memory_text, score_records, sort_results,
}
use permeant_os.Export.Nodes.{node, artifact_node_payload}
use permeant_os.Complex.Nodes.{complex_edges, write_plan_node, read_quota_node, publish_node}
use permeant_os.Complex.Memory.{fidelity_node, evidence_node, pending_node}
use permeant_os.Complex.{
  describe_graph, additional_nodes, rest_of, record_at, set_inner, extend_list, replace_results,
  extend_graph_for_complex_agent,
}
use permeant_os.Complex.Sealed.{extend_graph-sealed}
use permeant_os.Tests.{digest, floats, above, show, value_of}

abbrev retrieval : Value
retrieval = dict (("type", str "retrieval") ∷ ("retrieval_kind", str "vector") ∷ [])

abbrev replaced : List Value
replaced =
    dict (("type", str "retrieval") ∷ ("retrieval_kind", str "vector") ∷ ("results", list []) ∷ [])
    ∷ []

replaces : replace_results (list []) (retrieval ∷ []) ≡ ok replaced
unfolding replace_results get_or lookup set_item insert
replaces = refl

abbrev graph : Value
graph = dict (
    ("agent", dict [])
    ∷ ("participants", list [])
    ∷ ("lineage", list [])
    ∷ ("policies", dict [])
    ∷ ("nodes", list [])
    ∷ ("edges", list [])
    ∷ [])

abbrev at : String → ArtifactRecord
at p = record {
  path = p;
  content_hash = "sha256:9f86";
  size_bytes = 2;
  media_type = "application/json";
  disposition = "packaged";
  blob_path = none;
  restore_policy = "required";
  target_path = p;
  rebind_required = true;
}

abbrev artifacts : List ArtifactRecord
artifacts =
    at "reports/result.json"
    ∷ at "reports/research/plan.json"
    ∷ at "reports/audit/retrieval.json"
    ∷ at "reports/context/notes.md"
    ∷ []

abbrev extended : Value
extended = value_of (extend_graph_for_complex_agent floats above digest show graph artifacts)

extends : extend_graph_for_complex_agent floats above digest show graph artifacts ≡ ok extended
unfolding extend_graph_for_complex_agent describe_graph additional_nodes rest_of record_at set_inner
    extend_list replace_results complex_edges write_plan_node read_quota_node publish_node
    fidelity_node evidence_node pending_node node artifact_node_payload build_vector_snapshot
    snap_all memory_text score_records sort_results vector_retrieval_payload seal append_to
    canonical_graph_hash nodes_of_type base_node get_item get_or set_item lookup insert pop iter
    erase merge
extends = refl

extend_graph-sealed_example :
    (do h ← get_item extended "graph_hash"; verify_graph digest extended h) ≡ ok tt
extend_graph-sealed_example =
    extend_graph-sealed floats above digest show graph extended artifacts extends
