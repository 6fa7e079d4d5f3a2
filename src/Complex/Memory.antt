-- ===== src/Complex/Memory.antt =====
-- examples/agent-memory-graph/local_agent.py: the memory, the retrieval and the event that
-- `extend_graph_for_complex_agent` adds.
use permeant_os.Prelude.{ℕ, String, List, [], ◌∷◌}
use permeant_os.Py.Value.{Value, str, int, float, dict, list, fields}
use permeant_os.Py.Dict.{merge}
use permeant_os.Py.Text.{encode}
use permeant_os.Constants.{
  agent_id, user_id, created_at, embedding_model, embedding_dim, vector_store_ref,
}
use permeant_os.Hashing.{sha256_bytes}
use permeant_os.Embeddings.{
  Floats, deterministic_embedding, embedding_hash, vector_retrieval_payload,
}
use permeant_os.Export.Nodes.{node}

module _ (floats : Floats) (hexdigest : List ℕ → String) where
  unfoldable pub fidelity_node : Value
  fidelity_node = node floats hexdigest "memory:complex-fidelity" "memory" (
      fields (
        ("actor_id", str agent_id)
        ∷ ("memory_scope", str "thread")
        ∷ ("memory_tier", str "recall")
        ∷ ("sensitivity", str "internal")
        ∷ ("retention", str "durable")
        ∷ ("redaction_state", str "none")
        ∷ ("quality_state", str "verified")
        ∷ ("historical_state", str "current")
        ∷ ("trust_level", str "derived")
        ∷ ("valid_at", str created_at)
        ∷ ("confidence", float "0.99")
        ∷ ("memory_kind", str "semantic")
        ∷ (
          "text_hash",
          str (
              sha256_bytes hexdigest
                (encode "complex agent migration preserves exact continuation")),
        )
        ∷ ("subject", str "migration:e2e")
        ∷ ("predicate", str "continuation")
        ∷ ("object", str "exact-16-token-fidelity")
        ∷ ("namespace", list (str "complex-agent" ∷ str "evidence" ∷ []))
        ∷ ("key", str "continuation-fidelity")
        ∷ ("embedding_model", str embedding_model)
        ∷ ("embedding_dim", int embedding_dim)
        ∷ (
          "embedding_hash",
          str (
              embedding_hash floats hexdigest (
                deterministic_embedding floats
                  "migration:e2e continuation exact-16-token-fidelity")),
        )
        ∷ ("distance_metric", str "cosine")
        ∷ ("vector_store_ref", str vector_store_ref)
        ∷ (
          "episode",
          dict (
              ("schema_version", str "complex-agent-v0")
              ∷ ("episode_id", str "episode:complex-agent")
              ∷ ("continuity_state", str "open")
              ∷ (
                "actor_ids",
                list ((str agent_id) ∷ (str user_id) ∷ str "operator:release-manager" ∷ []),
              )
              ∷ ("started_at", str created_at)
              ∷ ("boundary_labels", list (str "migration" ∷ str "release" ∷ str "validation" ∷ []))
              ∷ (
                "causal_record_ids",
                list (str "tool:call:write-report" ∷ str "tool:call:write-plan" ∷ []),
              )
              ∷ (
                "related_record_ids",
                list (
                    str "artifact:report"
                    ∷ str "artifact:plan"
                    ∷ str "artifact:retrieval-audit"
                    ∷ []),
              )
              ∷ (
                "salience",
                dict (
                    ("reuse", float "0.9")
                    ∷ ("novelty", float "0.7")
                    ∷ ("unresolved", float "0.4")
                    ∷ []),
              )
              ∷ []),
        )
        ∷ (
          "conflict",
          dict (
              ("review_state", str "none")
              ∷ ("conflicting_node_ids", list [])
              ∷ ("drift_score", float "0.0")
              ∷ []),
        )
        ∷ (
          "lineage_links",
          list (
              (dict
                (("node_id", str "tool:call:write-plan") ∷ ("relation", str "derived_from") ∷ []))
              ∷ []),
        )
        ∷ []))

  unfoldable pub evidence_node : Value
  evidence_node = node floats hexdigest "retrieval:complex-evidence" "retrieval" (
      merge
        (vector_retrieval_payload floats hexdigest
          "which evidence proves the agent can continue after migration")
        (fields (
          (
            "results",
            list (
                (dict (
                  ("node_id", str "memory:complex-fidelity")
                  ∷ ("rank", int 1)
                  ∷ ("score", float "0.9875")
                  ∷ ("score_kind", str "cosine")
                  ∷ (
                    "score_breakdown",
                    list (
                        (dict (
                          ("name", str "semantic")
                          ∷ ("value", float "0.82")
                          ∷ ("weight", float "0.7")
                          ∷ []))
                        ∷ (dict (
                            ("name", str "recency")
                            ∷ ("value", float "0.95")
                            ∷ ("weight", float "0.2")
                            ∷ []))
                        ∷ (dict (
                            ("name", str "trust")
                            ∷ ("value", float "0.99")
                            ∷ ("weight", float "0.1")
                            ∷ []))
                        ∷ []),
                  )
                  ∷ ("candidate_source", str "semantic_neighbor")
                  ∷ (
                    "snippet_hash",
                    str (sha256_bytes hexdigest (encode "exact continuation after migration")),
                  )
                  ∷ []))
                ∷ []),
          )
          ∷ ("selection_policy", str "continuity_high_confidence")
          ∷ [])))

  unfoldable pub pending_node : Value
  pending_node = node floats hexdigest "event:pending-release" "event" (
      fields (
        ("actor_id", str "operator:release-manager")
        ∷ ("event_kind", str "approval_required")
        ∷ ("memory_scope", str "thread")
        ∷ ("memory_tier", str "working")
        ∷ ("sensitivity", str "internal")
        ∷ ("retention", str "session")
        ∷ ("redaction_state", str "none")
        ∷ []))
