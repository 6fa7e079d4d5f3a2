-- ===== src/Complex.antt =====
-- examples/agent-memory-graph/local_agent.py: the complex session, whose graph extends the one that
-- `build_graph` makes.
pub mod Nodes
pub mod Memory
pub mod Sealed
pub mod Package
pub mod Written
use permeant_os.Prelude.{
  ℕ, String, ◌<>◌, Bool, true, false, List, [], ◌∷◌, ◌++◌, if◌then◌else◌, Option, none, some, ◌==◌,
}
use permeant_os.Py.Value.{Value, str, bool, float, arr, dict, list, is_str, to_list}
use permeant_os.Py.Result.{Result, ok, raise, key_error, attribute_error, ◌>>=◌}
use permeant_os.Py.Dict.{get, get_item, get_or, set_item, iter}
use permeant_os.Py.Text.{encode, join}
use permeant_os.Py.Indent.{dumps_indented}
use permeant_os.Constants.{created_at}
use permeant_os.Hashing.{sha256_bytes}
use permeant_os.Graph.{append_to, seal}
use permeant_os.Artifacts.{ArtifactRecord}
use permeant_os.Embeddings.{Floats}
use permeant_os.VectorMemory.{build_vector_snapshot, ranked}
use permeant_os.Export.Nodes.{node, artifact_node_payload}
use permeant_os.Export.Package.{message, session_of}
use permeant_os.Export.{Message, LocalSession}
use permeant_os.Complex.Nodes.{complex_edges, write_plan_node, read_quota_node, publish_node}
use permeant_os.Complex.Memory.{fidelity_node, evidence_node, pending_node}

report_payload : Value
report_payload = dict (
    ("status", str "complete")
    ∷ ("title", str "Complex Agent Memory Graph migration report")
    ∷ (
      "findings",
      list (
          str "workspace state is restorable"
          ∷ str "retrieval memory survives export/import"
          ∷ str "pending work is policy-gated"
          ∷ str "graph/KV binding can attach to a live migration"
          ∷ []),
    )
    ∷ [])

plan_payload : Value
plan_payload = dict (
    ("plan_id", str "plan:complex-agent-migration")
    ∷ (
      "steps",
      list (
          (dict (("id", str "step:collect") ∷ ("status", str "complete") ∷ []))
          ∷ (dict (("id", str "step:compare") ∷ ("status", str "complete") ∷ []))
          ∷ (dict (("id", str "step:publish") ∷ ("status", str "needs_user") ∷ []))
          ∷ []),
    )
    ∷ ("decision", str "migrate live state after graph/KV evidence aligns")
    ∷ [])

retrieval_payload : Value
retrieval_payload = dict (
    ("query", str "which evidence proves the agent can continue after migration")
    ∷ ("selected_memory", str "memory:complex-fidelity")
    ∷ ("score", float "0.9875")
    ∷ ("policy", str "continuity_aware")
    ∷ [])

context_notes : String
context_notes = join "\n" (
    "# Complex Agent Continuity Notes" ∷ ""
    ∷ "- Maintains a working plan with completed and pending steps."
    ∷ "- Carries retrieval memory and artifact references."
    ∷ "- Requires explicit operator approval before external publish actions." ∷ "" ∷ [])

-- `(json.dumps(payload, indent=2, sort_keys=True) + "\n").encode("utf-8")`
encoded_json : Value → List ℕ
encoded_json payload = encode (dumps_indented 0 payload <> "\n")

unfoldable pub complex_artifact_payloads : List (String × List ℕ)
unfolding report_payload plan_payload retrieval_payload context_notes encoded_json
complex_artifact_payloads =
    ("reports/result.json", encoded_json report_payload)
    ∷ ("reports/research/plan.json", encoded_json plan_payload)
    ∷ ("reports/audit/retrieval.json", encoded_json retrieval_payload)
    ∷ ("reports/context/notes.md", encode context_notes)
    ∷ []

complex_messages : String → List Message
complex_messages artifact_hash =
    message "system" "You are the PermeantOS complex migration validation agent."
    ∷ message "user"
        "Investigate whether a live agent can move with working memory, artifacts, and pending work."
    ∷ message "assistant"
        "I will gather evidence, write artifacts, retain retrieval memory, and preserve a gated publish action."
    ∷ message "tool" ("fs.write_file wrote reports/result.json with " <> artifact_hash <> ".")
    ∷ message "assistant"
        "The primary report is complete. I will also create a migration plan and retrieval audit."
    ∷ message "tool"
        "fs.write_file wrote reports/research/plan.json and reports/audit/retrieval.json."
    ∷ message "assistant"
        "The agent now has completed artifacts, semantic memory, and one pending publish action requiring approval."
    ∷ message "user" "Move now, but do not replay unsafe external writes after import."
    ∷ message "assistant"
        "Ready to migrate. Completed writes are preserved, read-only checks may retry, and publish remains gated."
    ∷ []

-- `{record.path: record for record in records}[path]`
unfoldable pub record_at :
    String → List ArtifactRecord → Option ArtifactRecord → Result ArtifactRecord
record_at p [] none = raise (key_error p)
record_at p [] (some r) = ok r
record_at p (r ∷ records) found =
    let hit = record_at p records (some r) in
    let miss = record_at p records found in if r.path == p then hit else miss

-- `artifact_records[1:]`
unfoldable pub rest_of : List ArtifactRecord → List ArtifactRecord
rest_of [] = []
rest_of (r ∷ records) = records

-- `graph[key].extend(values)`
unfoldable pub extend_list : Value → String → List Value → Result Value
extend_list graph key [] = do old ← get_item graph key; ok graph
extend_list graph key (v ∷ values) = do added ← append_to graph key v; extend_list added key values

-- `graph[key][name] = v`
unfoldable pub set_inner : Value → String → String → Value → Result Value
set_inner graph key name v = do
  inner ← get_item graph key
  changed ← set_item inner name v
  set_item graph key changed

-- The results of the retrieval nodes of kind vector are replaced.
unfoldable pub replace_results : Value → List Value → Result (List Value)
replace_results expected [] = ok []
replace_results expected (v ∷ nodes) = do
  let rest = replace_results expected nodes
  t ← get v "type"
  kind ← get v "retrieval_kind"
  changed ←
      (if is_str t "retrieval"
        then (if is_str kind "vector" then set_item v "results" expected else ok v)
        else ok v)
  more ← rest
  ok (changed ∷ more)

unfoldable pub describe_graph : Value → Result Value
describe_graph graph = do
  a ← set_item graph "graph_id" (str "graph:complex-agent:0001")
  b ← set_inner a "agent" "id" (str "agent:complex-continuity")
  c ← append_to b "participants" (
      dict (
        ("id", str "operator:release-manager")
        ∷ ("kind", str "user")
        ∷ ("name", str "Release manager")
        ∷ []))
  d ← append_to c "lineage" (
      dict (
        ("graph_id", str "graph:complex-agent:0001")
        ∷ ("event", str "validated_for_real_runtime_e2e")
        ∷ ("created_at", str created_at)
        ∷ []))
  set_inner d "policies" "required_approval_for_publish" (bool true)

module _ (hexdigest : List ℕ → String) (show : Value → String) where
  unfoldable pub run_complex_session : Result LocalSession
  unfolding session_of complex_messages encoded_json report_payload
  run_complex_session =
      session_of hexdigest show
        (complex_messages (sha256_bytes hexdigest (encoded_json report_payload)))
        "reports/result.json" (encoded_json report_payload)

module _ (floats : Floats) (above : String → String → Bool) (hexdigest : List ℕ → String)
    (show : Value → String) where
  artifact_node : String → ArtifactRecord → Value
  artifact_node id artifact = node floats hexdigest id "artifact" (artifact_node_payload artifact)

  unfoldable pub additional_nodes : List ArtifactRecord → Result (List Value)
  unfolding artifact_node
  additional_nodes extra = do
    plan ← record_at "reports/research/plan.json" extra none
    audit ← record_at "reports/audit/retrieval.json" extra none
    notes ← record_at "reports/context/notes.md" extra none
    ok (
        write_plan_node floats hexdigest
        ∷ read_quota_node floats hexdigest
        ∷ publish_node floats hexdigest
        ∷ fidelity_node floats hexdigest
        ∷ evidence_node floats hexdigest
        ∷ pending_node floats hexdigest
        ∷ artifact_node "artifact:plan" plan
        ∷ artifact_node "artifact:retrieval-audit" audit
        ∷ artifact_node "artifact:context-notes" notes
        ∷ [])

  -- `extend_graph_for_complex_agent(graph, artifact_records)` returns the changed graph.
  unfoldable pub extend_graph_for_complex_agent : Value → List ArtifactRecord → Result Value
  extend_graph_for_complex_agent graph artifact_records = do
    described ← describe_graph graph
    added ← additional_nodes (rest_of artifact_records)
    larger ← extend_list described "nodes" added
    connected ← extend_list larger "edges" complex_edges
    snapshot ←
        build_vector_snapshot floats above hexdigest show connected "report artifact complete"
    nodes ← get_or connected "nodes" (list [])
    listed ← iter nodes
    replaced ← replace_results (list (ranked 1 snapshot.results)) listed
    ranked_graph ← set_item connected "nodes" (list replaced)
    seal hexdigest ranked_graph
