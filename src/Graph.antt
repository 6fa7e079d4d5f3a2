-- ===== src/Graph.antt =====
-- examples/agent-memory-graph/local_agent.py: the graph hash, nodes, and the mutations of a graph.
-- A graph is a JSON object; a function that mutates it returns the new object.
pub mod Seal
pub mod Nodes
use permeant_os.Prelude.{
  ℕ, String, Bool, true, false, not, List, [], ◌∷◌, ◌++◌, ◌==◌, if◌then◌else◌, contains,
}
use permeant_os.Py.Value.{
  Value, str, arr, obj, Fields, end, field, Items, nil, cons, dict, is_str, to_list, items, list,
}
use permeant_os.Py.Result.{
  Result, ok, raise, invalid, type_error, attribute_error, ◌>>=◌, ◌>>◌, reject_if,
}
use permeant_os.Py.Dict.{get, get_or, get_item, set_item, pop, iter, insert, merge}
use permeant_os.Constants.{created_at, runtime_id, post_migration_created_at}
use permeant_os.Hashing.{sha256_json}

-- The nodes of one type, as in `[node for node in graph.get("nodes", []) if node.get("type") == …]`.
unfoldable pub of_type : String → List Value → Result (List Value)
of_type kind [] = ok []
of_type kind (node ∷ nodes) = do
  let rest = of_type kind nodes
  t ← get node "type"
  found ← rest
  ok (if is_str t kind then node ∷ found else found)

unfoldable pub nodes_of_type : String → Value → Result (List Value)
unfolding of_type
nodes_of_type kind graph = do
  nodes ← get_or graph "nodes" (arr nil)
  listed ← iter nodes
  of_type kind listed

unfoldable pub find_node : String → List Value → Result Value
find_node id [] = raise (invalid "missing graph node: {}" (str id ∷ []))
find_node id (node ∷ nodes) = do
  let rest = find_node id nodes
  i ← get node "id"
  if is_str i id then ok node else rest

unfoldable pub node_by_id : Value → String → Result Value
unfolding find_node
node_by_id graph id = do
  nodes ← get_or graph "nodes" (arr nil)
  listed ← iter nodes
  find_node id listed

provenance : Value
provenance = dict (
    ("runtime", str runtime_id)
    ∷ ("captured_at", str created_at)
    ∷ ("adapter", str "local_agent.py")
    ∷ [])

post_provenance : Value
post_provenance = dict (
    ("runtime", str runtime_id)
    ∷ ("captured_at", str post_migration_created_at)
    ∷ ("adapter", str "local_agent.py")
    ∷ ("migration_phase", str "post_import_resume")
    ∷ [])

abbrev pub reserved_keys : List String
reserved_keys = "id" ∷ "type" ∷ "created_at" ∷ "content_hash" ∷ "provenance" ∷ []

unfoldable pub without_reserved : Fields → Fields
without_reserved end = end
without_reserved (field k v fs) =
    let rest = without_reserved fs in if contains reserved_keys k then rest else field k v rest

-- `node_content_payload(node)`, of a node that is an object
unfoldable pub node_content_payload : Fields → Value
unfolding without_reserved
node_content_payload node = obj (without_reserved node)

append_value : Value → Value → Result Value
append_value (arr vs) v = ok (list (to_list vs ++ v ∷ []))
append_value _ v = raise attribute_error

-- `graph[key].append(value)`
unfoldable pub append_to : Value → String → Value → Result Value
unfolding append_value
append_to graph key v = do
  old ← get_item graph key
  new ← append_value old v
  set_item graph key new

module _ (hexdigest : List ℕ → String) where
  unfoldable pub canonical_graph_hash : Value → Result String
  canonical_graph_hash graph = do
    payload ← pop graph "graph_hash"
    ok (sha256_json hexdigest payload)

  -- `graph["graph_hash"] = canonical_graph_hash(graph)`, the last step of every graph builder
  unfoldable pub seal : Value → Result Value
  unfolding canonical_graph_hash
  seal graph = do h ← canonical_graph_hash graph; set_item graph "graph_hash" (str h)

  -- Past the first test the expected hash is the actual one, so the second compares with that.
  unfoldable pub verify_graph : Value → Value → Result (Unit {0})
  unfolding canonical_graph_hash
  verify_graph graph expected_hash = do
    actual_hash ← canonical_graph_hash graph
    reject_if (not (is_str expected_hash actual_hash))
        (invalid "graph hash mismatch: expected {}, got {}" (expected_hash ∷ str actual_hash ∷ []))
    h ← get graph "graph_hash"
    reject_if (not (is_str h actual_hash)) (invalid "graph hash field does not match manifest" [])

  -- `base_node(node_id, node_type, payload)`
  unfoldable pub base_node : String → String → Fields → Fields
  unfolding provenance
  base_node node_id node_type payload =
      merge
        (field "id" (str node_id) (
          field "type" (str node_type) (
            field "created_at" (str created_at) (
              field "content_hash" (str (sha256_json hexdigest (obj payload)))
                (field "provenance" provenance end)))))
        payload

  unfoldable pub refresh_node_content_hash : Fields → Fields
  unfolding node_content_payload
  refresh_node_content_hash node =
      insert "content_hash" (str (sha256_json hexdigest (node_content_payload node))) node

  unfoldable pub post_migration_node : String → String → Fields → Fields
  unfolding post_provenance
  post_migration_node node_id node_type payload =
      merge
        (field "id" (str node_id) (
          field "type" (str node_type) (
            field "created_at" (str post_migration_created_at) (
              field "content_hash" (str (sha256_json hexdigest (obj payload)))
                (field "provenance" post_provenance end)))))
        payload

  unfoldable pub append_post_migration_node : Value → String → String → Fields → Result Value
  unfolding post_migration_node append_to
  append_post_migration_node graph node_id node_type payload =
      append_to graph "nodes" (obj (post_migration_node node_id node_type payload))

  -- the mutation of a `tool_call` node by `mark_tool_call_completed`
  unfoldable pub complete_node : String → Value → Result Value
  unfolding refresh_node_content_hash
  complete_node approval_state (obj node) = ok (
      obj (
        refresh_node_content_hash
          (insert "approval_state" (str approval_state) (insert "status" (str "completed") node))))
  complete_node approval_state _ = raise attribute_error

  complete_found : String → String → Value → List Value → Result (List Value)
  unfolding complete_node
  complete_found id approval_state node nodes = do
    t ← get node "type"
    reject_if (not (is_str t "tool_call")) (invalid "node is not a tool_call: {}" (str id ∷ []))
    done ← complete_node approval_state node
    ok (done ∷ nodes)

  unfoldable pub complete_first : String → String → List Value → Result (List Value)
  unfolding complete_found
  complete_first id approval_state [] = raise (invalid "missing graph node: {}" (str id ∷ []))
  complete_first id approval_state (node ∷ nodes) = do
    let rest = complete_first id approval_state nodes
    i ← get node "id"
    if is_str i id
        then complete_found id approval_state node nodes
        else (do changed ← rest; ok (node ∷ changed))

  -- `mark_tool_call_completed(graph, node_id, approval_state)` returns the changed graph.
  unfoldable pub mark_tool_call_completed : Value → String → String → Result Value
  unfolding complete_first
  mark_tool_call_completed graph id approval_state = do
    nodes ← get_or graph "nodes" (arr nil)
    listed ← iter nodes
    changed ← complete_first id approval_state listed
    set_item graph "nodes" (list changed)
