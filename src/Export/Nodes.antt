-- ===== src/Export/Nodes.antt =====
-- examples/agent-memory-graph/local_agent.py: the nodes that `build_graph` makes beside the messages.
use permeant_os.Prelude.{ℕ, String, ◌<>◌, List, [], ◌∷◌, length, true, false, ◌==◌, if◌then◌else◌}
use permeant_os.Py.Value.{Value, str, int, bool, float, obj, Fields, dict, list, fields}
use permeant_os.Py.Dict.{merge}
use permeant_os.Py.Text.{encode, remove_prefix}
use permeant_os.Constants.{
  agent_id, user_id, tool_id, created_at, embedding_model, embedding_dim, vector_store_ref,
}
use permeant_os.Hashing.{sha256_bytes, sha256_json}
use permeant_os.Graph.{base_node}
use permeant_os.Artifacts.{ArtifactRecord}
use permeant_os.Embeddings.{
  Floats, deterministic_embedding, embedding_hash, vector_retrieval_payload,
}

-- the update of a payload for an artifact that is not packaged
external_payload : ArtifactRecord → Fields
external_payload record_of = fields (
    (
      "redaction_state",
      str (if record_of.disposition == "redacted" then "redacted" else "external_only"),
    )
    ∷ ("artifact_kind", str "external")
    ∷ ("uri", str ("artifact://" <> record_of.disposition <> "/" <> record_of.path))
    ∷ ("restore_policy", str "external_rebind")
    ∷ ("rebind_required", bool true)
    ∷ ("packaging", str record_of.disposition)
    ∷ [])

file_payload : ArtifactRecord → Fields
unfolding remove_prefix
file_payload record_of = fields (
    ("actor_id", str tool_id)
    ∷ ("memory_scope", str "thread")
    ∷ ("memory_tier", str "archival")
    ∷ ("sensitivity", str "internal")
    ∷ ("retention", str "durable")
    ∷ ("redaction_state", str "none")
    ∷ ("artifact_kind", str "file")
    ∷ ("path", str record_of.path)
    ∷ ("uri", str ("artifact://local/" <> record_of.path))
    ∷ ("sha256", str (remove_prefix record_of.content_hash "sha256:"))
    ∷ ("size_bytes", int record_of.size_bytes)
    ∷ ("media_type", str record_of.media_type)
    ∷ ("root_ref", str "artifact-root:local-export")
    ∷ ("restore_policy", str "required")
    ∷ [])

unfoldable pub artifact_node_payload : ArtifactRecord → Fields
unfolding external_payload file_payload
artifact_node_payload record_of =
    if record_of.disposition == "packaged"
    then file_payload record_of
    else merge (file_payload record_of) (external_payload record_of)

module _ (floats : Floats) (hexdigest : List ℕ → String) where
  unfoldable pub tokenizer_hash : String
  tokenizer_hash = sha256_bytes hexdigest (encode "permeant-local-byte-tokenizer-v0")

  unfoldable pub node : String → String → Fields → Value
  node id kind payload = obj (base_node hexdigest id kind payload)

  unfoldable pub start_node : Value
  start_node = node "event:start:local" "event" (
      fields (
        ("actor_id", str user_id)
        ∷ ("event_kind", str "user_input")
        ∷ ("memory_scope", str "thread")
        ∷ ("memory_tier", str "active_context")
        ∷ ("sensitivity", str "internal")
        ∷ ("retention", str "session")
        ∷ ("redaction_state", str "none")
        ∷ []))

  unfoldable pub write_call_node : String → String → Value
  write_call_node artifact_path content_hash = node "tool:call:write-report" "tool_call" (
      fields (
        ("actor_id", str agent_id)
        ∷ ("memory_scope", str "thread")
        ∷ ("memory_tier", str "working")
        ∷ ("sensitivity", str "internal")
        ∷ ("retention", str "durable")
        ∷ ("redaction_state", str "none")
        ∷ ("name", str "fs.write_file")
        ∷ ("provider", str "local-reference")
        ∷ ("call_id", str "call:write-report")
        ∷ (
          "arguments_hash",
          str (
              sha256_json hexdigest
                (dict (("path", str artifact_path) ∷ ("content_sha256", str content_hash) ∷ []))),
        )
        ∷ (
          "input_schema_hash",
          str (
              sha256_json hexdigest
                (dict (("path", str "string") ∷ ("content", str "string") ∷ []))),
        )
        ∷ ("idempotency_key", str "local-reference-write-report")
        ∷ ("side_effect", str "external_write")
        ∷ ("status", str "completed")
        ∷ ("resume_policy", str "never_retry")
        ∷ ("approval_state", str "approved")
        ∷ ("external_resource_ids", list ((str ("file:" <> artifact_path)) ∷ []))
        ∷ []))

  unfoldable pub write_result_node : String → String → Value
  write_result_node artifact_path content_hash = node "tool:result:write-report" "tool_result" (
      fields (
        ("actor_id", str tool_id)
        ∷ ("memory_scope", str "thread")
        ∷ ("memory_tier", str "working")
        ∷ ("sensitivity", str "internal")
        ∷ ("retention", str "durable")
        ∷ ("redaction_state", str "none")
        ∷ (
          "result_hash",
          str (
              sha256_json hexdigest
                (dict (("path", str artifact_path) ∷ ("sha256", str content_hash) ∷ []))),
        )
        ∷ (
          "output_schema_hash",
          str (
              sha256_json hexdigest
                (dict (("path", str "string") ∷ ("sha256", str "string") ∷ []))),
        )
        ∷ ("is_error", bool false)
        ∷ ("resource_refs", list ((str ("artifact:" <> artifact_path)) ∷ []))
        ∷ ("status", str "completed")
        ∷ []))

  unfoldable pub memory_node : Value
  memory_node = node "memory:report-fact" "memory" (
      fields (
        ("actor_id", str agent_id)
        ∷ ("memory_scope", str "thread")
        ∷ ("memory_tier", str "recall")
        ∷ ("sensitivity", str "internal")
        ∷ ("retention", str "durable")
        ∷ ("redaction_state", str "none")
        ∷ ("quality_state", str "verified")
        ∷ ("historical_state", str "current")
        ∷ ("trust_level", str "derived")
        ∷ ("valid_at", str created_at)
        ∷ ("confidence", float "1.0")
        ∷ ("memory_kind", str "semantic")
        ∷ ("text_hash", str (sha256_bytes hexdigest (encode "report artifact is complete")))
        ∷ ("subject", str "artifact:report")
        ∷ ("predicate", str "status")
        ∷ ("object", str "complete")
        ∷ ("namespace", list (str "local-reference" ∷ str "facts" ∷ []))
        ∷ ("key", str "report-status")
        ∷ ("embedding_model", str embedding_model)
        ∷ ("embedding_dim", int embedding_dim)
        ∷ (
          "embedding_hash",
          str (
              embedding_hash floats hexdigest
                (deterministic_embedding floats "artifact:report status complete")),
        )
        ∷ ("distance_metric", str "cosine")
        ∷ ("vector_store_ref", str vector_store_ref)
        ∷ (
          "episode",
          dict (
              ("schema_version", str "local-reference-v0")
              ∷ ("episode_id", str "episode:local-export")
              ∷ ("continuity_state", str "open")
              ∷ ("actor_ids", list ((str agent_id) ∷ (str user_id) ∷ []))
              ∷ ("started_at", str created_at)
              ∷ ("boundary_labels", list (str "task" ∷ str "session" ∷ []))
              ∷ ("causal_record_ids", list (str "tool:call:write-report" ∷ []))
              ∷ ("related_record_ids", list (str "artifact:report" ∷ []))
              ∷ (
                "salience",
                dict (
                    ("reuse", float "0.5")
                    ∷ ("novelty", float "0.5")
                    ∷ ("unresolved", float "0.1")
                    ∷ []),
              )
              ∷ []),
        )
        ∷ (
          "conflict",
          dict (
              ("review_state", str "none")
              ∷ ("conflicting_node_ids", list [])
              ∷ ("drift_score", float "0.0")
              ∷ []),
        )
        ∷ (
          "lineage_links",
          list (
              (dict (
                ("node_id", str "tool:result:write-report")
                ∷ ("relation", str "derived_from")
                ∷ []))
              ∷ []),
        )
        ∷ []))

  unfoldable pub checkpoint_node : String → Value
  checkpoint_node prompt = node "checkpoint:prompt" "checkpoint" (
      fields (
        ("actor_id", str agent_id)
        ∷ ("memory_scope", str "thread")
        ∷ ("memory_tier", str "external")
        ∷ ("sensitivity", str "internal")
        ∷ ("retention", str "durable")
        ∷ ("redaction_state", str "none")
        ∷ ("checkpoint_kind", str "session")
        ∷ ("state_hash", str (sha256_bytes hexdigest (encode prompt)))
        ∷ ("resume_ref", str "local-reference-session")
        ∷ []))

  unfoldable pub kv_span_node : List ℕ → String → Value
  kv_span_node prompt_tokens prompt_token_hash = node "kv:span:prompt" "kv_span" (
      fields (
        ("actor_id", str agent_id)
        ∷ ("memory_scope", str "thread")
        ∷ ("memory_tier", str "active_context")
        ∷ ("sensitivity", str "internal")
        ∷ ("retention", str "session")
        ∷ ("redaction_state", str "none")
        ∷ ("token_start", int 0)
        ∷ ("token_end", int (length prompt_tokens))
        ∷ ("cache_ref", str "kv:simulated:prompt")
        ∷ ("tokenizer_hash", str tokenizer_hash)
        ∷ ("block_hashes", list ((str prompt_token_hash) ∷ []))
        ∷ []))

  unfoldable pub credential_node : Value
  credential_node = node "credential:local-filesystem" "credential_ref" (
      fields (
        ("actor_id", str tool_id)
        ∷ ("memory_scope", str "external")
        ∷ ("memory_tier", str "external")
        ∷ ("sensitivity", str "secret")
        ∷ ("retention", str "delete_on_import")
        ∷ ("redaction_state", str "external_only")
        ∷ ("capability", str "local.filesystem.write")
        ∷ ("binding", str "target runtime must authorize reports/ artifact writes")
        ∷ ("required", bool true)
        ∷ []))

  unfoldable pub report_node : ArtifactRecord → Value
  report_node artifact = node "artifact:report" "artifact" (artifact_node_payload artifact)

  unfoldable pub retrieval_node : Value
  retrieval_node =
      node "retrieval:report-memory" "retrieval"
        (vector_retrieval_payload floats hexdigest "report artifact complete")
