-- ===== src/ReturnHome/Work.antt =====
-- examples/agent-memory-graph/local_agent.py: what `return_home_after_target_resume` does to the
-- graph.
use permeant_os.Prelude.{ℕ, String, ◌<>◌, List, [], ◌∷◌}
use permeant_os.Py.Value.{Value, str, int, float, dict, list, fields, Fields}
use permeant_os.Py.Result.{Result, ◌>>=◌}
use permeant_os.Py.Dict.{get_item, set_item}
use permeant_os.Py.Text.{encode, remove_prefix}
use permeant_os.Constants.{
  agent_id, tool_id, embedding_model, embedding_dim, vector_store_ref, post_migration_created_at,
}
use permeant_os.Hashing.{sha256_bytes}
use permeant_os.Graph.{append_to, append_post_migration_node, seal}
use permeant_os.Embeddings.{Floats, deterministic_embedding, embedding_hash}
use permeant_os.ReturnHome.Checks.{remote_artifact}

abbrev pub continuation_path : String
continuation_path = "reports/roundtrip/origin-continuation.md"

abbrev pub origin_artifact : String
origin_artifact = "artifact:origin-roundtrip-continuation"

abbrev pub returned_memory : String
returned_memory = "memory:agent-roundtrip-returned-home"

-- `value.extend(…)` on the list under a key
unfoldable pub extend_with : String → List Value → Value → Result Value
extend_with key [] graph = Result.ok graph
extend_with key (v ∷ vs) graph = do longer ← append_to graph key v; extend_with key vs longer

abbrev return_edge : String → String → String → Value
return_edge source target kind =
    dict (("from", str source) ∷ ("to", str target) ∷ ("type", str kind) ∷ [])

unfoldable pub return_edges : List Value
return_edges =
    return_edge "memory:agent-activity-continued:post-import" returned_memory "caused"
    ∷ return_edge remote_artifact origin_artifact "referenced"
    ∷ return_edge origin_artifact returned_memory "produced"
    ∷ return_edge returned_memory "event:roundtrip-origin-return" "produced"
    ∷ []

unfoldable pub continuation_payload : String → ℕ → Fields
continuation_payload continuation_hash continuation_size = fields (
    ("actor_id", str tool_id)
    ∷ ("memory_scope", str "thread")
    ∷ ("memory_tier", str "archival")
    ∷ ("sensitivity", str "internal")
    ∷ ("retention", str "durable")
    ∷ ("redaction_state", str "none")
    ∷ ("artifact_kind", str "file")
    ∷ ("path", str continuation_path)
    ∷ ("uri", str ("artifact://origin/" <> continuation_path))
    ∷ ("sha256", str (remove_prefix continuation_hash "sha256:"))
    ∷ ("size_bytes", int continuation_size)
    ∷ ("media_type", str "text/markdown")
    ∷ ("root_ref", str "origin-roundtrip-workspace")
    ∷ ("restore_policy", str "required")
    ∷ [])

unfoldable pub return_event_payload : Fields
return_event_payload = fields (
    ("actor_id", str agent_id)
    ∷ ("event_kind", str "agent_returned_to_origin_after_remote_work")
    ∷ ("memory_scope", str "thread")
    ∷ ("memory_tier", str "working")
    ∷ ("sensitivity", str "internal")
    ∷ ("retention", str "durable")
    ∷ ("redaction_state", str "none")
    ∷ [])

module _ (hexdigest : List ℕ → String) (floats : Floats) where
  -- The text that is embedded names the proof and the artifact of the target.
  unfoldable pub returned_memory_payload : String → String → Fields
  returned_memory_payload proof artifact_hash = fields (
      ("actor_id", str agent_id)
      ∷ ("memory_scope", str "thread")
      ∷ ("memory_tier", str "recall")
      ∷ ("sensitivity", str "internal")
      ∷ ("retention", str "durable")
      ∷ ("redaction_state", str "none")
      ∷ ("quality_state", str "verified")
      ∷ ("historical_state", str "current")
      ∷ ("trust_level", str "verified")
      ∷ ("valid_at", str post_migration_created_at)
      ∷ ("confidence", float "1.0")
      ∷ ("memory_kind", str "episodic")
      ∷ (
        "text_hash",
        str (sha256_bytes hexdigest (encode "agent returned home after AWS continuation")),
      )
      ∷ ("subject", str "agent:complex-continuity")
      ∷ ("predicate", str "roundtrip_continuation")
      ∷ ("object", str "aws_work_verified_and_origin_work_completed")
      ∷ ("namespace", list (str "complex-agent" ∷ str "roundtrip" ∷ []))
      ∷ ("key", str "agent-roundtrip-returned-home")
      ∷ ("embedding_model", str embedding_model)
      ∷ ("embedding_dim", int embedding_dim)
      ∷ (
        "embedding_hash",
        str (
            embedding_hash floats hexdigest (
              deterministic_embedding floats
                ("agent returned home after AWS continuation " <> proof <> " " <> artifact_hash))),
      )
      ∷ ("distance_metric", str "cosine")
      ∷ ("vector_store_ref", str vector_store_ref)
      ∷ (
        "episode",
        dict (
            ("schema_version", str "complex-agent-v0")
            ∷ ("episode_id", str "episode:complex-agent:roundtrip-origin-return")
            ∷ ("continuity_state", str "returned_home")
            ∷ ("actor_ids", list ((str agent_id) ∷ (str tool_id) ∷ str "origin:local-runtime" ∷ []))
            ∷ ("started_at", str post_migration_created_at)
            ∷ (
              "boundary_labels",
              list (
                  str "origin_return"
                  ∷ str "remote_artifact_verification"
                  ∷ str "artifact_write"
                  ∷ []),
            )
            ∷ (
              "causal_record_ids",
              list (
                  str "memory:agent-activity-continued:post-import"
                  ∷ (str remote_artifact)
                  ∷ (str origin_artifact)
                  ∷ []),
            )
            ∷ ("related_record_ids", list ((str origin_artifact) ∷ []))
            ∷ (
              "salience",
              dict (
                  ("reuse", float "1.0")
                  ∷ ("novelty", float "1.0")
                  ∷ ("unresolved", float "0.0")
                  ∷ []),
            )
            ∷ []),
      )
      ∷ (
        "conflict",
        dict (
            ("review_state", str "none")
            ∷ ("conflicting_node_ids", list [])
            ∷ ("drift_score", float "0.0")
            ∷ []),
      )
      ∷ (
        "lineage_links",
        list (
            dict (("node_id", str remote_artifact) ∷ ("relation", str "derived_from") ∷ [])
            ∷ dict (("node_id", str origin_artifact) ∷ ("relation", str "produced") ∷ [])
            ∷ []),
      )
      ∷ [])

  -- the three nodes, the edges, the lineage, and the new hash
  unfoldable pub record_return : Value → Value → String → String → String → ℕ → Result Value
  record_return graph target_hash proof artifact_hash continuation_hash continuation_size = do
    a ←
        append_post_migration_node hexdigest graph origin_artifact "artifact"
          (continuation_payload continuation_hash continuation_size)
    b ←
        append_post_migration_node hexdigest a returned_memory "memory"
          (returned_memory_payload proof artifact_hash)
    c ←
        append_post_migration_node hexdigest b "event:roundtrip-origin-return" "event"
          return_event_payload
    d ← extend_with "edges" return_edges c
    graph_id ← get_item d "graph_id"
    e ← append_to d "lineage" (
        dict (
          ("graph_id", graph_id)
          ∷ ("event", str "roundtrip_origin_return")
          ∷ ("created_at", str post_migration_created_at)
          ∷ []))
    sourced ← set_item e "roundtrip_source_graph_id" target_hash
    seal hexdigest sourced
