-- ===== src/Export/Replay.antt =====
-- The graph that `build_graph` makes, under the audit of tool calls.
use permeant_os.Prelude.{ℕ, ◌+◌, String, List, [], ◌∷◌, ◌++◌, ◌≡◌, ◌<>◌, contains, true, subst}
use permeant_os.Py.Value.{to_list-items, Value, str, obj}
use permeant_os.Py.Result.{ok, ◌>>=◌, ok-injective}
use permeant_os.Py.Dict.{insert, lookup, get_item, get_or, iter, merge, set_item, pop, in_set}
use permeant_os.Graph.{seal, canonical_graph_hash, base_node, of_type, nodes_of_type}
use permeant_os.Artifacts.{ArtifactRecord}
use permeant_os.Audit.{
  Entry, verdict, audit_call, audit_node, audit_nodes, audit_tool_replay_safety,
  reject_unsafe_tool_replay, resume_policy_of,
}
use permeant_os.Embeddings.{Floats, vector_retrieval_payload}
use permeant_os.Prompt.{tokenize_prompt}
use permeant_os.Prompt.Tokens.{tokenize_prompt-token_hash}
use permeant_os.Export.Nodes.{
  node, start_node, write_call_node, write_result_node, report_node, memory_node, checkpoint_node,
  retrieval_node, kv_span_node, credential_node,
}
use permeant_os.Export.{
  Message, LocalSession, message_node, message_nodes, work_nodes, graph_value, build_graph,
}
use permeant_os.Export.Messages.{lookup-report_node}

-- The entry of the audit for the call that wrote the report.
abbrev pub written : Entry
written = record {
  node_id = str "tool:call:write-report";
  name = str "fs.write_file";
  side_effect = str "external_write";
  status = str "completed";
  resume_policy = str "never_retry";
  approval_state = str "approved";
  outcome = verdict "no_replay" true "tool call is completed and must not be replayed";
}

module _ (floats : Floats) (hexdigest : List ℕ → String) where
  work_nodes-calls :
      (session : LocalSession) (artifact : ArtifactRecord) (prompt h : String)
      → of_type "tool_call" (work_nodes floats hexdigest session artifact prompt h)
        ≡ ok (write_call_node floats hexdigest session.artifact_path artifact.content_hash ∷ [])
  unfolding work_nodes of_type node start_node write_call_node write_result_node report_node
      memory_node checkpoint_node retrieval_node kv_span_node credential_node base_node merge insert
      lookup get_or vector_retrieval_payload
  work_nodes-calls session artifact prompt h = rw (lookup-report_node floats hexdigest artifact)

  message_nodes-calls :
      (index : ℕ) (messages : List Message) (rest found : List Value)
      → of_type "tool_call" rest ≡ ok found
      → of_type "tool_call" (message_nodes floats hexdigest index messages ++ rest) ≡ ok found
  unfolding message_nodes message_node of_type node base_node merge insert lookup get_or
  message_nodes-calls index [] rest found h = h
  message_nodes-calls index (message ∷ messages) rest found h =
      rw (message_nodes-calls (index + 1) messages rest found h)

  graph_value-audit :
      (session : LocalSession) (artifact : ArtifactRecord) (prompt h : String) (edges : List Value)
      (tokens : List ℕ) (root : Value)
      → audit_tool_replay_safety (
          obj (
            insert "graph_hash" root (
              graph_value floats hexdigest
                (start_node floats hexdigest ∷ message_nodes floats hexdigest 1 session.messages
                  ++ work_nodes floats hexdigest session artifact prompt h)
                edges
                tokens
                h)))
        ≡ ok (written ∷ [])
  unfolding audit_tool_replay_safety audit_nodes audit_node audit_call resume_policy_of
      nodes_of_type of_type in_set contains ◌<>◌ graph_value insert lookup get_item iter start_node
      write_call_node node base_node merge get_or
  graph_value-audit session artifact prompt h edges tokens root = rw (
    to_list-items,
    message_nodes-calls 1 session.messages _ _ (work_nodes-calls session artifact prompt h),
  )

  -- Every graph that the export builds has one tool call, the write of the report; the audit finds
  -- that it must not run again, and the replay check lets the graph pass.
  pub build_graph-replay :
      (session : LocalSession) (artifact : ArtifactRecord) (prompt : String) (graph : Value)
      → build_graph floats hexdigest session artifact prompt ≡ ok graph
      → (audit_tool_replay_safety graph ≡ ok (written ∷ []))
        × ((audit_tool_replay_safety graph >>= reject_unsafe_tool_replay) ≡ ok tt)
  unfolding build_graph seal canonical_graph_hash pop set_item reject_unsafe_tool_replay
  build_graph-replay session artifact prompt graph h =
      let (t, e) = tokenize_prompt-token_hash hexdigest prompt in
      let built = ok-injective _ graph (rw e at h) in
      let audited : audit_tool_replay_safety graph ≡ ok (written ∷ []) =
        subst (λ g. audit_tool_replay_safety g ≡ ok (written ∷ [])) built
          (graph_value-audit session artifact prompt t _ (tokenize_prompt prompt) _) in
      (audited, rw audited)
