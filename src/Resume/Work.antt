-- ===== src/Resume/Work.antt =====
-- examples/agent-memory-graph/local_agent.py: what `resume_imported_agent` does to the graph.
use permeant_os.Prelude.{ℕ, String, ◌<>◌, false, not, ◌||◌, List, [], ◌∷◌}
use permeant_os.Py.Value.{Value, str, int, bool, float, dict, list, fields, Fields, is_str}
use permeant_os.Py.Result.{Result, invalid, ◌>>=◌, ◌>>◌, reject_if}
use permeant_os.Py.Dict.{get, get_item, set_item}
use permeant_os.Py.Text.{encode, remove_prefix}
use permeant_os.Constants.{
  agent_id, tool_id, embedding_model, embedding_dim, vector_store_ref, post_migration_created_at,
}
use permeant_os.Hashing.{sha256_bytes, sha256_json}
use permeant_os.Graph.{
  node_by_id, append_to, append_post_migration_node, mark_tool_call_completed, seal,
}
use permeant_os.Embeddings.{Floats, deterministic_embedding, embedding_hash}

abbrev pub announcement_path : String
announcement_path = "reports/publish/announcement.md"

abbrev pub read_call : String
read_call = "tool:call:read-aws-quota"

abbrev pub publish_call : String
publish_call = "tool:call:publish-release"

unfoldable pub simulated_quota_result : Value
simulated_quota_result = Value.obj (
    fields (
      ("provider", str "aws")
      ∷ ("operation", str "ec2.describe_instances")
      ∷ ("filters", list (str "Project=permeant-os" ∷ []))
      ∷ ("active_instances", int 0)
      ∷ ("stopped_instances", int 0)
      ∷ ("security_groups", int 0)
      ∷ ("key_pairs", int 0)
      ∷ ("result", str "clean")
      ∷ []))

-- `graph["edges"].append(…)`
unfoldable pub append_edge : Value → String → String → Result Value
append_edge graph source target =
    append_to graph "edges"
      (dict (("from", str source) ∷ ("to", str target) ∷ ("type", str "produced") ∷ []))

-- the tests of the two gates
unfoldable pub check_gate : Value → String → String → String → Result (Unit {0})
check_gate node side_effect resume_policy message = do
  e ← get node "side_effect"
  p ← get node "resume_policy"
  reject_if (not (is_str e side_effect) || not (is_str p resume_policy)) (invalid message [])

module _ (hexdigest : List ℕ → String) where
  unfoldable pub quota_result_hash : String
  quota_result_hash = sha256_json hexdigest simulated_quota_result

  quota_result_payload : Fields
  quota_result_payload = fields (
      ("actor_id", str tool_id)
      ∷ ("memory_scope", str "thread")
      ∷ ("memory_tier", str "working")
      ∷ ("sensitivity", str "internal")
      ∷ ("retention", str "session")
      ∷ ("redaction_state", str "none")
      ∷ ("result_hash", str quota_result_hash)
      ∷ (
        "output_schema_hash",
        str (
            sha256_json hexdigest
              (dict (("active_instances", str "integer") ∷ ("result", str "string") ∷ []))),
      )
      ∷ ("is_error", bool false)
      ∷ ("resource_refs", list [])
      ∷ ("status", str "completed")
      ∷ [])

  -- the read-only call is run again
  unfoldable pub retry_read_tool : Value → Result Value
  unfolding quota_result_payload
  retry_read_tool graph = do
    read_tool ← node_by_id graph read_call
    check_gate read_tool "read_only" "retry_safe" "read-only quota tool is not retry-safe"
    marked ← mark_tool_call_completed hexdigest graph read_call "not_required"
    added ←
        append_post_migration_node hexdigest marked "tool:result:read-aws-quota:post-import"
          "tool_result" quota_result_payload
    append_edge added read_call "tool:result:read-aws-quota:post-import"

  -- the gate of the publication, which only an approval passes
  unfoldable pub approve_publish_tool : Value → Value → Result Value
  approve_publish_tool graph publish_tool = do
    check_gate publish_tool "external_write" "ask_user"
        "publish tool is not gated by explicit user approval"
    mark_tool_call_completed hexdigest graph publish_call "approved"

  publish_result_payload : String → Fields
  publish_result_payload announcement_hash = fields (
      ("actor_id", str tool_id)
      ∷ ("memory_scope", str "thread")
      ∷ ("memory_tier", str "working")
      ∷ ("sensitivity", str "internal")
      ∷ ("retention", str "durable")
      ∷ ("redaction_state", str "none")
      ∷ (
        "result_hash",
        str (
            sha256_json hexdigest
              (dict (("path", str announcement_path) ∷ ("sha256", str announcement_hash) ∷ []))),
      )
      ∷ (
        "output_schema_hash",
        str (sha256_json hexdigest (dict (("path", str "string") ∷ ("sha256", str "string") ∷ []))),
      )
      ∷ ("is_error", bool false)
      ∷ ("resource_refs", list ((str ("artifact:" <> announcement_path)) ∷ []))
      ∷ ("status", str "completed")
      ∷ [])

  announcement_payload : String → ℕ → Fields
  unfolding remove_prefix
  announcement_payload announcement_hash announcement_size = fields (
      ("actor_id", str tool_id)
      ∷ ("memory_scope", str "thread")
      ∷ ("memory_tier", str "archival")
      ∷ ("sensitivity", str "internal")
      ∷ ("retention", str "durable")
      ∷ ("redaction_state", str "none")
      ∷ ("artifact_kind", str "file")
      ∷ ("path", str announcement_path)
      ∷ ("uri", str ("artifact://local/" <> announcement_path))
      ∷ ("sha256", str (remove_prefix announcement_hash "sha256:"))
      ∷ ("size_bytes", int announcement_size)
      ∷ ("media_type", str "text/markdown")
      ∷ ("root_ref", str "post-migration-workspace")
      ∷ ("restore_policy", str "required")
      ∷ [])

  -- the last event, the lineage, and the new hash
  unfoldable pub finish_graph : Value → Value → Result Value
  finish_graph graph pre_resume_graph_hash = do
    evented ←
        append_post_migration_node hexdigest graph "event:post-migration-agent-resume" "event" (
          fields (
            ("actor_id", str agent_id)
            ∷ ("event_kind", str "agent_resumed_after_import")
            ∷ ("memory_scope", str "thread")
            ∷ ("memory_tier", str "working")
            ∷ ("sensitivity", str "internal")
            ∷ ("retention", str "durable")
            ∷ ("redaction_state", str "none")
            ∷ []))
    graph_id ← get_item evented "graph_id"
    descended ← append_to evented "lineage" (
        dict (
          ("graph_id", graph_id)
          ∷ ("event", str "post_migration_agent_resume")
          ∷ ("created_at", str post_migration_created_at)
          ∷ []))
    sourced ← set_item descended "source_graph_id" pre_resume_graph_hash
    seal hexdigest sourced

  module _ (floats : Floats) where
    continued_memory_payload : Fields
    continued_memory_payload = fields (
        ("actor_id", str agent_id)
        ∷ ("memory_scope", str "thread")
        ∷ ("memory_tier", str "recall")
        ∷ ("sensitivity", str "internal")
        ∷ ("retention", str "durable")
        ∷ ("redaction_state", str "none")
        ∷ ("quality_state", str "verified")
        ∷ ("historical_state", str "current")
        ∷ ("trust_level", str "verified")
        ∷ ("valid_at", str post_migration_created_at)
        ∷ ("confidence", float "1.0")
        ∷ ("memory_kind", str "episodic")
        ∷ (
          "text_hash",
          str (
              sha256_bytes hexdigest
                (encode "agent resumed after migration and completed approved publish")),
        )
        ∷ ("subject", str "agent:complex-continuity")
        ∷ ("predicate", str "post_migration_activity")
        ∷ ("object", str "completed_safe_retry_and_approved_publish")
        ∷ ("namespace", list (str "complex-agent" ∷ str "post-migration" ∷ []))
        ∷ ("key", str "agent-activity-continued")
        ∷ ("embedding_model", str embedding_model)
        ∷ ("embedding_dim", int embedding_dim)
        ∷ (
          "embedding_hash",
          str (
              embedding_hash floats hexdigest (
                deterministic_embedding floats
                  "agent:complex-continuity post_migration_activity completed_safe_retry_and_approved_publish")),
        )
        ∷ ("distance_metric", str "cosine")
        ∷ ("vector_store_ref", str vector_store_ref)
        ∷ (
          "episode",
          dict (
              ("schema_version", str "complex-agent-v0")
              ∷ ("episode_id", str "episode:complex-agent:post-import")
              ∷ ("continuity_state", str "continued")
              ∷ (
                "actor_ids",
                list ((str agent_id) ∷ (str tool_id) ∷ str "operator:release-manager" ∷ []),
              )
              ∷ ("started_at", str post_migration_created_at)
              ∷ (
                "boundary_labels",
                list (str "post_import_resume" ∷ str "tool_execution" ∷ str "artifact_write" ∷ []),
              )
              ∷ (
                "causal_record_ids",
                list (str "tool:call:read-aws-quota" ∷ str "tool:call:publish-release" ∷ []),
              )
              ∷ ("related_record_ids", list (str "artifact:publish-announcement:post-import" ∷ []))
              ∷ (
                "salience",
                dict (
                    ("reuse", float "1.0")
                    ∷ ("novelty", float "0.8")
                    ∷ ("unresolved", float "0.0")
                    ∷ []),
              )
              ∷ []),
        )
        ∷ (
          "conflict",
          dict (
              ("review_state", str "none")
              ∷ ("conflicting_node_ids", list [])
              ∷ ("drift_score", float "0.0")
              ∷ []),
        )
        ∷ (
          "lineage_links",
          list (
              (dict (
                ("node_id", str "tool:result:publish-release:post-import")
                ∷ ("relation", str "derived_from")
                ∷ []))
              ∷ []),
        )
        ∷ [])

    -- the nodes and the edges of a publication that was written
    unfoldable pub record_publish : Value → String → ℕ → Result Value
    unfolding publish_result_payload announcement_payload continued_memory_payload
    record_publish graph announcement_hash announcement_size = do
      a ←
          append_post_migration_node hexdigest graph "tool:result:publish-release:post-import"
            "tool_result" (publish_result_payload announcement_hash)
      b ←
          append_post_migration_node hexdigest a "artifact:publish-announcement:post-import"
            "artifact" (announcement_payload announcement_hash announcement_size)
      c ←
          append_post_migration_node hexdigest b "memory:agent-activity-continued:post-import"
            "memory" continued_memory_payload
      d ← append_edge c publish_call "tool:result:publish-release:post-import"
      e ← append_edge d publish_call "artifact:publish-announcement:post-import"
      append_edge e "artifact:publish-announcement:post-import"
          "memory:agent-activity-continued:post-import"
