-- ===== src/Audit/Graphs.antt =====
-- The audit of a whole graph: what `reject_unsafe_tool_replay` lets through.
use permeant_os.Prelude.{String, ◌≡◌, true, false, List, [], ◌∷◌, arith, All, subst, sym}
use permeant_os.Py.Value.{Value, str}
use permeant_os.Py.Result.{ok, >>=-eq-ok, ok-injective}
use permeant_os.Py.Dict.{get_or}
use permeant_os.Graph.{nodes_of_type}
use permeant_os.Audit.{
  Entry, audit_node, audit_nodes, audit_tool_replay_safety, reject_unsafe_tool_replay,
  resume_policy_of,
}
use permeant_os.Audit.Safety.{IsUnsafe, audit_call_decides}

-- The four texts by which a call is judged, with the defaults that the code takes for absent ones.
pub record Judged (graph node : Value) (e s p a : String) : Type 0 where
  pub side_effect : get_or node "side_effect" (str "unknown") ≡ ok (str e)
  pub status : get_or node "status" (str "needs_user") ≡ ok (str s)
  pub approval_state : get_or node "approval_state" (str "not_required") ≡ ok (str a)
  pub resume_policy : resume_policy_of graph node ≡ ok (str p)

-- `node` is not an unsafe call.
abbrev pub IsAllowed : Value → Value → Type 0
IsAllowed graph node = (e s p a : String) → Judged graph node e s p a → ¬ (IsUnsafe e s p a)

abbrev IsSafe : Entry → Type 0
IsSafe e = e.safe_to_import ≡ true

reject_unsafe-entries : (es : List Entry) → reject_unsafe_tool_replay es ≡ ok tt → All IsSafe es
unfolding reject_unsafe_tool_replay
reject_unsafe-entries [] h = tt
reject_unsafe-entries (e ∷ es) h = ground (arith, reject_unsafe-entries es)

audit_node-IsAllowed :
    (graph node : Value) (entry : Entry)
    → audit_node graph node ≡ ok entry
    → entry.safe_to_import ≡ true
    → IsAllowed graph node
unfolding audit_node
audit_node-IsAllowed graph node entry h safe e s p a j u =
    let (v, q, decides) = audit_call_decides e s p a in
    let bad : v.safe_to_import ≡ false = decides.1 u in ground (arith, q, bad)

audit_nodes-IsAllowed :
    (graph : Value) (nodes : List Value) (es : List Entry)
    → audit_nodes graph nodes ≡ ok es
    → All IsSafe es
    → All (IsAllowed graph) nodes
unfolding audit_nodes
audit_nodes-IsAllowed graph [] es h safe = tt
audit_nodes-IsAllowed graph (node ∷ nodes) es h safe =
    let (entry, p, h') = >>=-eq-ok (audit_node graph node) _ h in
    let (audit, q, e) = >>=-eq-ok (audit_nodes graph nodes) _ h' in
    let safe' : All IsSafe (entry ∷ audit) = subst (All IsSafe) (sym (ok-injective _ _ e)) safe in
    (
      audit_node-IsAllowed graph node entry p safe'.0,
      audit_nodes-IsAllowed graph nodes audit q safe'.1,
    )

-- If the audit of a graph returns and its entries pass the replay check, then no tool call of the
-- graph is an unsafe one.
pub reject_unsafe_tool_replay_sound :
    (graph : Value) (nodes : List Value) (es : List Entry)
    → nodes_of_type "tool_call" graph ≡ ok nodes
    → audit_tool_replay_safety graph ≡ ok es
    → reject_unsafe_tool_replay es ≡ ok tt
    → All (IsAllowed graph) nodes
unfolding audit_tool_replay_safety
reject_unsafe_tool_replay_sound graph nodes es n h r =
    audit_nodes-IsAllowed graph nodes es (rw n at h) (reject_unsafe-entries es r)
