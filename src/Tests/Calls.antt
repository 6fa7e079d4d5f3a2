-- ===== src/Tests/Calls.antt =====
-- The theorems on the audit of tool calls, at concrete calls.
use permeant_os.Prelude.{◌≡◌, ◌↔◌, refl, [], ◌∷◌, true, false, contains, All}
use permeant_os.Py.Value.{str}
use permeant_os.Py.Result.{ok}
use permeant_os.Py.Dict.{lookup, get_or, in_set, iter, get_item}
use permeant_os.Graph.{nodes_of_type}
use permeant_os.Audit.{
  Verdict, Entry, verdict, audit_call, audit_node, audit_nodes, audit_tool_replay_safety,
  reject_unsafe_tool_replay, resume_policy_of,
}
use permeant_os.Audit.Safety.{IsUnsafe, audit_call_decides}
use permeant_os.Audit.Graphs.{IsAllowed, reject_unsafe_tool_replay_sound}
use permeant_os.Tests.{graph, call_node}

audit_call_decides_example :
    (v : Verdict) × (audit_call (str "unknown") (str "failed") (str "rebind") (str "denied") ≡ ok v)
    × ((v.safe_to_import ≡ false) ↔ IsUnsafe "unknown" "failed" "rebind" "denied")
audit_call_decides_example = audit_call_decides "unknown" "failed" "rebind" "denied"

abbrev pub entry : Entry
entry = record {
  node_id = str "tool:call:1";
  name = str "fs.write_file";
  side_effect = str "external_write";
  status = str "needs_user";
  resume_policy = str "ask_user";
  approval_state = str "not_required";
  outcome =
      verdict "requires_user" true
        "side-effecting tool call requires explicit resume policy before activation";
}

calls : nodes_of_type "tool_call" graph ≡ ok (call_node ∷ [])
unfolding nodes_of_type lookup get_or iter
calls = refl

audited : audit_tool_replay_safety graph ≡ ok (entry ∷ [])
unfolding audit_tool_replay_safety audit_nodes audit_node audit_call resume_policy_of nodes_of_type
    in_set contains lookup get_or iter get_item
audited = refl

passes : reject_unsafe_tool_replay (entry ∷ []) ≡ ok tt
unfolding reject_unsafe_tool_replay
passes = refl

reject_unsafe_tool_replay_sound_example : All (IsAllowed graph) (call_node ∷ [])
reject_unsafe_tool_replay_sound_example =
    reject_unsafe_tool_replay_sound graph (call_node ∷ []) (entry ∷ []) calls audited passes
