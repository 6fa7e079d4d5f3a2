-- ===== src/Audit.antt =====
-- examples/agent-memory-graph/local_agent.py: `audit_tool_replay_safety` decides for each tool call
-- of a graph whether an import may resume it, and `reject_unsafe_tool_replay` stops an import.
pub mod Safety
pub mod Graphs
use permeant_os.Prelude.{
  String, ◌<>◌, Bool, true, false, not, ◌&&◌, List, [], ◌∷◌, if◌then◌else◌, length, eqb,
}
use permeant_os.Py.Value.{Value, str, obj, bool, Fields, end, is_str, dict, list, arr, nil}
use permeant_os.Py.Result.{Result, ok, raise, invalid, ◌>>=◌, ◌>>◌, reject_if}
use permeant_os.Py.Dict.{get, get_or, get_item, in_set}
use permeant_os.Constants.{pending_tool_statuses, manual_resume_policies}
use permeant_os.Graph.{nodes_of_type}

-- The last three fields of an audit entry, which the tests decide.
pub record Verdict : Type 0 where
  pub action : String
  pub safe_to_import : Bool
  pub reason : String

abbrev pub verdict : String → Bool → String → Verdict
verdict a s r = record { action = a; safe_to_import = s; reason = r }

pub record Entry : Type 0 where
  pub node_id : Value
  pub name : Value
  pub side_effect : Value
  pub status : Value
  pub resume_policy : Value
  pub approval_state : Value
  pub outcome : Verdict
  pub open outcome use *

-- A text that stands in an f-string.
abbrev text_of : Value → String
text_of (str s) = s
text_of _ = ""

abbrev pub terminal_statuses : List String
terminal_statuses = "completed" ∷ "cancelled" ∷ []

abbrev pub mutating_effects : List String
mutating_effects = "external_write" ∷ "unknown" ∷ []

abbrev pub reading_effects : List String
reading_effects = "none" ∷ "read_only" ∷ []

abbrev pub refused_approvals : List String
refused_approvals = "denied" ∷ "expired" ∷ []

-- `if status in {"completed", "cancelled"}`
audit_terminal : Value → Value → Value → Result Verdict
audit_terminal side_effect status resume_policy = do
  mutating ← in_set side_effect mutating_effects
  ok (
      if mutating && is_str resume_policy "retry_safe"
      then verdict "reject" false "completed side-effecting tool call cannot be marked retry_safe"
      else verdict "no_replay" true
          ("tool call is " <> text_of status <> " and must not be replayed"))

-- `elif side_effect in {"external_write", "unknown"}`
audit_mutating : Value → Result Verdict
audit_mutating resume_policy = do
  manual ← in_set resume_policy manual_resume_policies
  ok (
      if manual
      then verdict
          (if is_str resume_policy "ask_user"
            then "requires_user"
            else text_of resume_policy <> "_required")
          true "side-effecting tool call requires explicit resume policy before activation"
      else verdict "reject" false
          "pending side-effecting tool call is not safe to replay automatically")

-- the last `elif`, and the entry's initial fields where it does not apply
audit_other : Value → Result Verdict
audit_other status = do
  pending ← in_set status pending_tool_statuses
  ok (
      verdict "manual_review" true (
        if pending
        then "pending tool call requires explicit operator review"
        else "manual review required before tool resume"))

-- the branches behind the first
audit_open : Value → Value → Value → Result Verdict
unfolding audit_mutating audit_other
audit_open side_effect status resume_policy = do
  reading ← in_set side_effect reading_effects
  if reading && is_str resume_policy "retry_safe"
      then ok (verdict "retry_allowed" true "pending non-mutating tool call is marked retry_safe")
      else (do
        mutating ← in_set side_effect mutating_effects
        if mutating then audit_mutating resume_policy else audit_other status)

-- the closing test of the approval state
audit_approval : Value → Value → Verdict → Result Verdict
audit_approval status approval_state v = do
  refused ← in_set approval_state refused_approvals
  if refused
      then (do
        pending ← in_set status pending_tool_statuses
        ok (
            if pending
            then verdict "reject" false ("pending tool call approval is " <> text_of approval_state)
            else v))
      else ok v

unfoldable pub audit_call : Value → Value → Value → Value → Result Verdict
unfolding audit_terminal audit_open audit_approval
audit_call side_effect status resume_policy approval_state = do
  terminal ← in_set status terminal_statuses
  v ←
      (if terminal
        then audit_terminal side_effect status resume_policy
        else audit_open side_effect status resume_policy)
  audit_approval status approval_state v

-- the resume policy of a node, which may be the graph's default
unfoldable pub resume_policy_of : Value → Value → Result Value
resume_policy_of graph node = do
  policies ← get_or graph "policies" (dict [])
  fallback ← get_or policies "default_replay_policy" (str "ask_user")
  get_or node "resume_policy" fallback

unfoldable pub audit_node : Value → Value → Result Entry
audit_node graph node = do
  side_effect ← get_or node "side_effect" (str "unknown")
  status ← get_or node "status" (str "needs_user")
  resume_policy ← resume_policy_of graph node
  approval_state ← get_or node "approval_state" (str "not_required")
  node_id ← get_item node "id"
  name ← get node "name"
  v ← audit_call side_effect status resume_policy approval_state
  ok (record {
    node_id = node_id;
    name = name;
    side_effect = side_effect;
    status = status;
    resume_policy = resume_policy;
    approval_state = approval_state;
    outcome = v;
  })

unfoldable pub audit_nodes : Value → List Value → Result (List Entry)
audit_nodes graph [] = ok []
audit_nodes graph (node ∷ nodes) = do
  let rest = audit_nodes graph nodes
  entry ← audit_node graph node
  audit ← rest
  ok (entry ∷ audit)

unfoldable pub audit_tool_replay_safety : Value → Result (List Entry)
audit_tool_replay_safety graph = do nodes ← nodes_of_type "tool_call" graph; audit_nodes graph nodes

-- An entry as the dictionary that the manifest and the import report hold.
unfoldable pub entry_value : Entry → Value
entry_value e = dict (
    ("node_id", e.node_id)
    ∷ ("name", e.name)
    ∷ ("side_effect", e.side_effect)
    ∷ ("status", e.status)
    ∷ ("resume_policy", e.resume_policy)
    ∷ ("approval_state", e.approval_state)
    ∷ ("action", str e.action)
    ∷ ("safe_to_import", bool e.safe_to_import)
    ∷ ("reason", str e.reason)
    ∷ [])

unfoldable pub unsafe_entries : List Entry → List Entry
unsafe_entries [] = []
unsafe_entries (e ∷ es) =
    let rest = unsafe_entries es in if e.safe_to_import then rest else e ∷ rest

summary : List Entry → List Value
summary [] = []
summary (e ∷ es) = e.node_id ∷ str e.reason ∷ summary es

reject_unsafe : List Entry → Result (Unit {0})
reject_unsafe [] = ok tt
reject_unsafe (e ∷ es) = raise (invalid "unsafe tool replay policy: {}" (summary (e ∷ es)))

unfoldable pub reject_unsafe_tool_replay : List Entry → Result (Unit {0})
unfolding unsafe_entries reject_unsafe summary
reject_unsafe_tool_replay audit = reject_unsafe (unsafe_entries audit)
