-- ===== src/Complex/Nodes.antt =====
-- examples/agent-memory-graph/local_agent.py: the edges and the tool calls that
-- `extend_graph_for_complex_agent` adds.
use permeant_os.Prelude.{ℕ, String, List, [], ◌∷◌}
use permeant_os.Py.Value.{Value, str, dict, list, fields}
use permeant_os.Constants.{agent_id}
use permeant_os.Hashing.{sha256_json}
use permeant_os.Embeddings.{Floats}
use permeant_os.Export.Nodes.{node}

unfoldable pub complex_edges : List Value
complex_edges =
    ((dict (
        ("from", str "turn:assistant:5")
        ∷ ("to", str "tool:call:write-plan")
        ∷ ("type", str "caused")
        ∷ []))
      ∷ (dict (
          ("from", str "tool:call:write-plan")
          ∷ ("to", str "artifact:plan")
          ∷ ("type", str "produced")
          ∷ []))
      ∷ (dict (
          ("from", str "tool:call:write-plan")
          ∷ ("to", str "artifact:retrieval-audit")
          ∷ ("type", str "produced")
          ∷ []))
      ∷ (dict (
          ("from", str "tool:call:write-plan")
          ∷ ("to", str "artifact:context-notes")
          ∷ ("type", str "produced")
          ∷ []))
      ∷ (dict (
          ("from", str "artifact:plan")
          ∷ ("to", str "memory:complex-fidelity")
          ∷ ("type", str "produced")
          ∷ []))
      ∷ (dict (
          ("from", str "retrieval:complex-evidence")
          ∷ ("to", str "memory:complex-fidelity")
          ∷ ("type", str "retrieved")
          ∷ []))
      ∷ (dict (
          ("from", str "event:pending-release")
          ∷ ("to", str "tool:call:publish-release")
          ∷ ("type", str "caused")
          ∷ []))
      ∷ (dict (
          ("from", str "tool:call:read-aws-quota")
          ∷ ("to", str "memory:complex-fidelity")
          ∷ ("type", str "references")
          ∷ []))
      ∷ [])

module _ (floats : Floats) (hexdigest : List ℕ → String) where
  unfoldable pub write_plan_node : Value
  write_plan_node = node floats hexdigest "tool:call:write-plan" "tool_call" (
      fields (
        ("actor_id", str agent_id)
        ∷ ("memory_scope", str "thread")
        ∷ ("memory_tier", str "working")
        ∷ ("sensitivity", str "internal")
        ∷ ("retention", str "durable")
        ∷ ("redaction_state", str "none")
        ∷ ("name", str "fs.write_file")
        ∷ ("provider", str "local-reference")
        ∷ ("call_id", str "call:write-plan")
        ∷ (
          "arguments_hash",
          str (sha256_json hexdigest (dict (("path", str "reports/research/plan.json") ∷ []))),
        )
        ∷ (
          "input_schema_hash",
          str (
              sha256_json hexdigest
                (dict (("path", str "string") ∷ ("content", str "string") ∷ []))),
        )
        ∷ ("idempotency_key", str "complex-write-plan")
        ∷ ("side_effect", str "external_write")
        ∷ ("status", str "completed")
        ∷ ("resume_policy", str "never_retry")
        ∷ ("approval_state", str "approved")
        ∷ ("external_resource_ids", list (str "file:reports/research/plan.json" ∷ []))
        ∷ []))

  unfoldable pub read_quota_node : Value
  read_quota_node = node floats hexdigest "tool:call:read-aws-quota" "tool_call" (
      fields (
        ("actor_id", str agent_id)
        ∷ ("memory_scope", str "thread")
        ∷ ("memory_tier", str "working")
        ∷ ("sensitivity", str "internal")
        ∷ ("retention", str "session")
        ∷ ("redaction_state", str "none")
        ∷ ("name", str "aws.ec2.describe_instances")
        ∷ ("provider", str "aws")
        ∷ ("call_id", str "call:read-aws-quota")
        ∷ (
          "arguments_hash",
          str (
              sha256_json hexdigest
                (dict (("filters", list (str "Project=permeant-os" ∷ [])) ∷ []))),
        )
        ∷ ("input_schema_hash", str (sha256_json hexdigest (dict (("filters", str "array") ∷ []))))
        ∷ ("idempotency_key", str "complex-read-aws")
        ∷ ("side_effect", str "read_only")
        ∷ ("status", str "not_started")
        ∷ ("resume_policy", str "retry_safe")
        ∷ ("approval_state", str "not_required")
        ∷ []))

  unfoldable pub publish_node : Value
  publish_node = node floats hexdigest "tool:call:publish-release" "tool_call" (
      fields (
        ("actor_id", str agent_id)
        ∷ ("memory_scope", str "thread")
        ∷ ("memory_tier", str "working")
        ∷ ("sensitivity", str "internal")
        ∷ ("retention", str "durable")
        ∷ ("redaction_state", str "none")
        ∷ ("name", str "fs.write_file")
        ∷ ("provider", str "local-reference")
        ∷ ("call_id", str "call:publish-release")
        ∷ (
          "arguments_hash",
          str (sha256_json hexdigest (dict (("path", str "reports/publish/announcement.md") ∷ []))),
        )
        ∷ (
          "input_schema_hash",
          str (
              sha256_json hexdigest
                (dict (("path", str "string") ∷ ("content", str "string") ∷ []))),
        )
        ∷ ("idempotency_key", str "complex-publish-release")
        ∷ ("side_effect", str "external_write")
        ∷ ("status", str "needs_user")
        ∷ ("resume_policy", str "ask_user")
        ∷ ("approval_state", str "pending")
        ∷ ("external_resource_ids", list (str "file:reports/publish/announcement.md" ∷ []))
        ∷ []))
