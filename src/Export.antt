-- ===== src/Export.antt =====
-- examples/agent-memory-graph/local_agent.py: the graph that an export builds from a session.
pub mod Nodes
pub mod Messages
pub mod Replay
pub mod Package
pub mod Written
use permeant_os.Prelude.{
  ℕ, ◌+◌, String, ◌<>◌, List, [], ◌∷◌, ◌++◌, length, true, ◌==◌, if◌then◌else◌, map,
}
use permeant_os.Py.Value.{Value, str, int, bool, dict, list, fields, Fields}
use permeant_os.Py.Result.{Result, ok, ◌>>=◌}
use permeant_os.Py.Text.{decimal}
use permeant_os.Constants.{
  agent_id, user_id, tool_id, created_at, graph_version, runtime_id, model_id,
}
use permeant_os.Graph.{seal}
use permeant_os.Artifacts.{ArtifactRecord}
use permeant_os.Embeddings.{Floats}
use permeant_os.Prompt.{tokenize_prompt, token_hash}
use permeant_os.Export.Nodes.{
  node, tokenizer_hash, start_node, write_call_node, write_result_node, report_node, memory_node,
  checkpoint_node, retrieval_node, kv_span_node, credential_node,
}

pub record Message : Type 0 where
  pub role : String
  pub content : String

-- `LocalSession`
pub record LocalSession : Type 0 where
  pub messages : List Message
  pub artifact_path : String
  pub artifact_bytes : List ℕ
  pub deterministic_response : String

abbrev pub message_id : ℕ → Message → String
message_id index message = "turn:" <> message.role <> ":" <> decimal index

-- who said a message
unfoldable pub actor_of : Message → String
actor_of message =
    if message.role == "tool" then tool_id else if message.role == "user" then user_id else agent_id

edge : String → String → String → Value
edge source target kind = dict (("from", str source) ∷ ("to", str target) ∷ ("type", str kind) ∷ [])

-- the edges along the messages, from the node before
unfoldable pub message_edges : String → ℕ → List Message → List Value
unfolding edge
message_edges previous index [] = []
message_edges previous index (message ∷ messages) =
    edge previous (message_id index message) "caused"
    ∷ message_edges (message_id index message) (index + 1) messages

unfoldable pub fixed_edges : List Value
fixed_edges =
    ((dict (
        ("from", str "turn:assistant:3")
        ∷ ("to", str "tool:call:write-report")
        ∷ ("type", str "caused")
        ∷ []))
      ∷ (dict (
          ("from", str "tool:call:write-report")
          ∷ ("to", str "tool:result:write-report")
          ∷ ("type", str "produced")
          ∷ []))
      ∷ (dict (
          ("from", str "tool:call:write-report")
          ∷ ("to", str "artifact:report")
          ∷ ("type", str "produced")
          ∷ []))
      ∷ (dict (
          ("from", str "tool:result:write-report")
          ∷ ("to", str "memory:report-fact")
          ∷ ("type", str "produced")
          ∷ []))
      ∷ (dict (
          ("from", str "retrieval:report-memory")
          ∷ ("to", str "memory:report-fact")
          ∷ ("type", str "retrieved")
          ∷ []))
      ∷ (dict (
          ("from", str "checkpoint:prompt")
          ∷ ("to", str "turn:user:2")
          ∷ ("type", str "checkpointed")
          ∷ []))
      ∷ (dict (
          ("from", str "kv:span:prompt")
          ∷ ("to", str "checkpoint:prompt")
          ∷ ("type", str "references")
          ∷ []))
      ∷ (dict (
          ("from", str "credential:local-filesystem")
          ∷ ("to", str "tool:call:write-report")
          ∷ ("type", str "approves")
          ∷ []))
      ∷ [])

module _ (floats : Floats) (hexdigest : List ℕ → String) where
  unfoldable pub message_node : ℕ → Message → Value
  message_node index message = node floats hexdigest (message_id index message) "message" (
      fields (
        ("actor_id", str (actor_of message))
        ∷ ("memory_scope", str "thread")
        ∷ ("memory_tier", str "active_context")
        ∷ ("sensitivity", str "internal")
        ∷ ("retention", str "session")
        ∷ ("redaction_state", str "none")
        ∷ ("role", str message.role)
        ∷ ("content", str message.content)
        ∷ []))

  unfoldable pub message_nodes : ℕ → List Message → List Value
  message_nodes index [] = []
  message_nodes index (message ∷ messages) =
      message_node index message ∷ message_nodes (index + 1) messages

  -- the nodes that the second call of `nodes.extend` adds
  unfoldable pub work_nodes : LocalSession → ArtifactRecord → String → String → List Value
  work_nodes session artifact prompt prompt_token_hash =
      write_call_node floats hexdigest session.artifact_path artifact.content_hash
      ∷ write_result_node floats hexdigest session.artifact_path artifact.content_hash
      ∷ report_node floats hexdigest artifact
      ∷ memory_node floats hexdigest
      ∷ checkpoint_node floats hexdigest prompt
      ∷ retrieval_node floats hexdigest
      ∷ kv_span_node floats hexdigest (tokenize_prompt prompt) prompt_token_hash
      ∷ credential_node floats hexdigest
      ∷ []

  unfoldable pub graph_value : List Value → List Value → List ℕ → String → Fields
  graph_value nodes edges prompt_tokens prompt_token_hash = fields (
      ("graph_id", str "graph:local-reference:0001")
      ∷ ("graph_version", str graph_version)
      ∷ ("created_at", str created_at)
      ∷ (
        "agent",
        dict (
            ("id", str agent_id)
            ∷ ("runtime", str runtime_id)
            ∷ ("model", str model_id)
            ∷ ("runtime_version", str "0.1.0")
            ∷ []),
      )
      ∷ (
        "participants",
        list (
            (dict (
              ("id", str agent_id)
              ∷ ("kind", str "agent")
              ∷ ("name", str "Local reference agent")
              ∷ ("model", str model_id)
              ∷ []))
            ∷ (dict (
                ("id", str user_id)
                ∷ ("kind", str "user")
                ∷ ("name", str "Local reference user")
                ∷ []))
            ∷ (dict (
                ("id", str tool_id)
                ∷ ("kind", str "tool")
                ∷ ("provider", str "local-reference")
                ∷ []))
            ∷ (dict (
                ("id", str "runtime:local-reference")
                ∷ ("kind", str "runtime")
                ∷ ("provider", str "local-reference")
                ∷ []))
            ∷ []),
      )
      ∷ (
        "lineage",
        list (
            (dict (
              ("graph_id", str "graph:local-reference:0001")
              ∷ ("event", str "exported")
              ∷ ("created_at", str created_at)
              ∷ []))
            ∷ []),
      )
      ∷ (
        "policies",
        dict (
            ("default_replay_policy", str "ask_user")
            ∷ ("redaction_policy", str "required")
            ∷ ("retention_policy", str "durable")
            ∷ ("required_approval_for_side_effects", bool true)
            ∷ []),
      )
      ∷ ("nodes", list nodes)
      ∷ ("edges", list edges)
      ∷ (
        "kv_spans",
        list (
            (dict (
              ("node_id", str "checkpoint:prompt")
              ∷ ("token_start", int 0)
              ∷ ("token_end", int (length prompt_tokens))
              ∷ ("cache_ref", str "kv:simulated:prompt")
              ∷ ("tokenizer_hash", str (tokenizer_hash floats hexdigest))
              ∷ ("block_hashes", list ((str prompt_token_hash) ∷ []))
              ∷ []))
            ∷ []),
      )
      ∷ ("graph_hash", str "")
      ∷ [])

  unfoldable pub build_graph : LocalSession → ArtifactRecord → String → Result Value
  build_graph session artifact prompt = do
    prompt_token_hash ← token_hash hexdigest (tokenize_prompt prompt)
    seal hexdigest (
        Value.obj (
          graph_value
            (start_node floats hexdigest ∷ message_nodes 1 session.messages
              ++ work_nodes session artifact prompt prompt_token_hash)
            (message_edges "event:start:local" 1 session.messages ++ fixed_edges)
            (tokenize_prompt prompt) prompt_token_hash))
