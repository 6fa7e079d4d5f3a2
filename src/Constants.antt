-- ===== src/Constants.antt =====
-- examples/agent-memory-graph/local_agent.py: the module's constants.
use permeant_os.Prelude.{String, List, [], ◌∷◌, ℕ}

abbrev pub graph_version : String
graph_version = "0.1"

abbrev pub created_at : String
created_at = "2026-06-19T00:00:00Z"

abbrev pub agent_id : String
agent_id = "agent:local-reference"

abbrev pub user_id : String
user_id = "user:local-reference"

abbrev pub tool_id : String
tool_id = "tool:local-fs"

abbrev pub model_id : String
model_id = "deterministic-local-agent-v0"

abbrev pub runtime_id : String
runtime_id = "examples/agent-memory-graph"

abbrev pub embedding_model : String
embedding_model = "deterministic-local-byte-embedding-v0"

abbrev pub embedding_dim : ℕ
embedding_dim = 8

abbrev pub vector_store_ref : String
vector_store_ref = "vector:local-reference:session"

abbrev pub artifact_store_version : String
artifact_store_version = "content-addressed-v0"

abbrev pub restore_policy_version : String
restore_policy_version = "workspace-relative-v0"

abbrev pub security_policy_version : String
security_policy_version = "agent-graph-security-policy-v0"

abbrev pub root_signature_algorithm : String
root_signature_algorithm = "sha256-local-root-signature-v0"

abbrev pub trusted_signer_id : String
trusted_signer_id = "signer:local-reference"

abbrev pub allowed_target_runtimes : List String
allowed_target_runtimes = runtime_id ∷ []

-- sorted
abbrev pub allowed_tool_names : List String
allowed_tool_names = "aws.ec2.describe_instances" ∷ "aws.ec2.run_instances" ∷ "fs.write_file" ∷ []

abbrev pub allowed_artifact_path_prefixes : List String
allowed_artifact_path_prefixes = "reports/" ∷ []

abbrev pub forbidden_secret_keys : List String
forbidden_secret_keys =
    "secret_value" ∷ "raw_secret" ∷ "raw_credential" ∷ "private_key" ∷ "access_token"
    ∷ "refresh_token" ∷ "api_key" ∷ "password" ∷ []

abbrev pub pending_tool_statuses : List String
pending_tool_statuses = "not_started" ∷ "in_progress" ∷ "failed" ∷ "needs_user" ∷ []

abbrev pub manual_resume_policies : List String
manual_resume_policies = "ask_user" ∷ "rebind" ∷ "compensate" ∷ []

abbrev pub post_migration_created_at : String
post_migration_created_at = "2026-06-20T00:00:00Z"
