-- ===== src/Export/Messages.antt =====
-- The graph that `build_graph` makes: it passes the hash check, and its prompt is the session's.
use permeant_os.Prelude.{ℕ, ◌+◌, String, List, [], ◌∷◌, ◌++◌, ◌≡◌, some, Bool-cases, inl, inr, ◌==◌}
use permeant_os.Py.Value.{to_list-items, Value, str, obj}
use permeant_os.Py.Result.{◌>>=◌, ok}
use permeant_os.Py.Dict.{erase, pop, set_item, insert, lookup, get_item, get_or, iter, merge}
use permeant_os.Graph.{canonical_graph_hash, seal, verify_graph, base_node}
use permeant_os.Artifacts.{ArtifactRecord}
use permeant_os.Embeddings.{vector_retrieval_payload, Floats}
use permeant_os.Hashing.{sha256_json}
use permeant_os.Graph.Seal.{verify_graph-seal}
use permeant_os.Prompt.Tokens.{tokenize_prompt-token_hash}
use permeant_os.Prompt.{Messages, messages_of, reconstruct_prompt, reconstruct_prompt_from_messages}
use permeant_os.Export.Nodes.{
  node, start_node, write_call_node, write_result_node, report_node, memory_node, checkpoint_node,
  retrieval_node, kv_span_node, credential_node, artifact_node_payload,
}
use permeant_os.Export.{
  message_edges, fixed_edges, Message, LocalSession, message_node, message_nodes, work_nodes,
  graph_value, build_graph, Fields, tokenize_prompt,
}

-- the roles and the contents of a session's messages
abbrev pub said : List Message → Messages
said [] = []
said (message ∷ messages) = (str message.role, str message.content) ∷ said messages

module _ (floats : Floats) (hexdigest : List ℕ → String) where
  pub lookup-report_node :
      (artifact : ArtifactRecord)
      → lookup "type"
          (base_node hexdigest "artifact:report" "artifact" (artifact_node_payload artifact))
        ≡ some (str "artifact")
  unfolding base_node artifact_node_payload merge insert lookup
  lookup-report_node artifact = elim (Bool-cases (artifact.disposition == "packaged")) [
    | inl e ↦ rw e
    | inr n ↦ rw n
  ]

  work_nodes-messages :
      (session : LocalSession) (artifact : ArtifactRecord) (prompt h : String)
      → messages_of (work_nodes floats hexdigest session artifact prompt h) ≡ ok []
  unfolding work_nodes messages_of node start_node write_call_node write_result_node report_node
      memory_node checkpoint_node retrieval_node kv_span_node credential_node base_node merge insert
      lookup get_or vector_retrieval_payload
  work_nodes-messages session artifact prompt h = rw (lookup-report_node artifact)

  message_nodes-messages :
      (index : ℕ) (messages : List Message) (rest : List Value)
      → messages_of rest ≡ ok []
      → messages_of (message_nodes floats hexdigest index messages ++ rest) ≡ ok (said messages)
  unfolding message_nodes message_node messages_of node base_node merge insert lookup get_or
      get_item
  message_nodes-messages index [] rest h = h
  message_nodes-messages index (message ∷ messages) rest h =
      rw (message_nodes-messages (index + 1) messages rest h)

  graph_value-reconstruct :
      (show : Value → String) (session : LocalSession) (artifact : ArtifactRecord)
      (prompt h : String) (edges : List Value) (tokens : List ℕ) (root : Value)
      → reconstruct_prompt show (
          obj (
            insert "graph_hash" root (
              graph_value floats hexdigest
                (start_node floats hexdigest ∷ message_nodes floats hexdigest 1 session.messages
                  ++ work_nodes floats hexdigest session artifact prompt h)
                edges
                tokens
                h)))
        ≡ reconstruct_prompt_from_messages show (said session.messages)
  unfolding reconstruct_prompt graph_value insert lookup get_item iter start_node messages_of node
      base_node merge get_or
  graph_value-reconstruct show session artifact prompt h edges tokens root = rw (
    to_list-items,
    message_nodes-messages 1 session.messages _ (work_nodes-messages session artifact prompt h),
  )

  -- For every session, artifact record and prompt the export's graph is built. It passes the hash
  -- check against the hash that it carries, and the prompt that an import reconstructs from it is the
  -- prompt of the session's messages, the error of one included.
  pub build_graph-reconstruct :
      (show : Value → String) (session : LocalSession) (artifact : ArtifactRecord) (prompt : String)
      → (graph : Value) × (build_graph floats hexdigest session artifact prompt ≡ ok graph)
        × ((do h ← get_item graph "graph_hash"; verify_graph hexdigest graph h) ≡ ok tt)
        × (reconstruct_prompt show graph
            ≡ reconstruct_prompt_from_messages show (said session.messages))
  unfolding build_graph seal canonical_graph_hash pop set_item
  build_graph-reconstruct show session artifact prompt =
      let (h, e) = tokenize_prompt-token_hash hexdigest prompt in
      let nodes : List Value =
        start_node floats hexdigest ∷ message_nodes floats hexdigest 1 session.messages
        ++ work_nodes floats hexdigest session artifact prompt h in
      let edges : List Value =
        message_edges "event:start:local" 1 session.messages ++ fixed_edges in
      let fs : Fields = graph_value floats hexdigest nodes edges (tokenize_prompt prompt) h in
      let root : Value = str (sha256_json hexdigest (obj (erase "graph_hash" fs))) in
      (
        obj (insert "graph_hash" root fs),
        rw e,
        verify_graph-seal hexdigest fs,
        graph_value-reconstruct show session artifact prompt h edges (tokenize_prompt prompt) root,
      )
