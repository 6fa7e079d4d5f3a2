-- ===== src/Security/Attested.antt =====
-- The tests of `validate_security_policy` on the attestation and on the policy hooks.
use permeant_os.Prelude.{ℕ, String, ◌≡◌, true, not, List, [], All, ap, ◌∙◌}
use permeant_os.Py.Value.{Value, str, arr, nil, is_str, truthy, dict}
use permeant_os.Py.Result.{ok, reject_if, reject_if-eq-ok, >>=-eq-ok, ok-injective}
use permeant_os.Py.Dict.{get, get_or, get_item}
use permeant_os.Py.Equal.{to_set, in_values}
use permeant_os.Constants.{security_policy_version, root_signature_algorithm}
use permeant_os.Hashing.{graph_root_signature}
use permeant_os.Security.{check_signature, require_in, check_tool, check_hooks, nodes_of_type}
use permeant_os.Security.Tests.{of_not, text_known, for_each-eq-ok, All-map}

-- What an accepted attestation shows.
pub record Attested (hexdigest : List ℕ → String) (graph security signer : Value) : Type 0 where
  pub version : get security "policy_version" ≡ ok (str security_policy_version)
  pub algorithm : get security "signature_algorithm" ≡ ok (str root_signature_algorithm)
  pub signer_field : get security "signer_id" ≡ ok signer
  pub ids : Value
  pub ids_field : get_or security "trusted_signer_ids" (arr nil) ≡ ok ids
  pub trusted : List Value
  pub trusted_set : to_set ids ≡ ok trusted
  pub signer_trusted : in_values signer trusted ≡ ok true
  pub graph_hash : Value
  pub graph_hash_field : get_item graph "graph_hash" ≡ ok graph_hash
  pub signed :
      get security "graph_root_signature"
      ≡ ok (str (graph_root_signature hexdigest graph_hash signer))

pub check_signature_sound :
    (hexdigest : List ℕ → String) (graph security signer : Value)
    → check_signature hexdigest graph security ≡ ok signer
    → Attested hexdigest graph security signer
unfolding check_signature
check_signature_sound hexdigest graph security signer h =
    let (_, _, h1) = >>=-eq-ok (reject_if (not (truthy security)) _) _ h in
    let (v, e1, h2) = >>=-eq-ok (get security "policy_version") _ h1 in
    let (_, p1, h3) = >>=-eq-ok (reject_if (not (is_str v security_policy_version)) _) _ h2 in
    let (a, e2, h4) = >>=-eq-ok (get security "signature_algorithm") _ h3 in
    let (_, p2, h5) = >>=-eq-ok (reject_if (not (is_str a root_signature_algorithm)) _) _ h4 in
    let (s, e3, h6) = >>=-eq-ok (get security "signer_id") _ h5 in
    let (i, e4, h7) = >>=-eq-ok (get_or security "trusted_signer_ids" (arr nil)) _ h6 in
    let (t, e5, h8) = >>=-eq-ok (to_set i) _ h7 in
    let (k, e6, h9) = >>=-eq-ok (in_values s t) _ h8 in
    let (_, p3, h10) = >>=-eq-ok (reject_if (not k) _) _ h9 in
    let (g, e7, h11) = >>=-eq-ok (get_item graph "graph_hash") _ h10 in
    let (r, e8, h12) = >>=-eq-ok (get security "graph_root_signature") _ h11 in
    let (_, p4, h13) =
      >>=-eq-ok (reject_if (not (is_str r (graph_root_signature hexdigest g s))) _) _ h12 in
    let same : s ≡ signer = ok-injective s signer h13 in
    rw (← same) (record {
      version = e1 ∙ ap ok (text_known v _ _ p1);
      algorithm = e2 ∙ ap ok (text_known a _ _ p2);
      signer_field = e3;
      ids = i;
      ids_field = e4;
      trusted = t;
      trusted_set = e5;
      signer_trusted = e6 ∙ ap ok (of_not (reject_if-eq-ok _ _ p3));
      graph_hash = g;
      graph_hash_field = e7;
      signed = e8 ∙ ap ok (text_known r _ _ p4);
    })

-- The text is an element of the set, by Python's equality.
require_in_sound :
    (v : Value) (allowed : List Value) (m : String)
    → require_in v allowed m ≡ ok tt
    → in_values v allowed ≡ ok true
unfolding require_in
require_in_sound v allowed m h =
    let (k, e, p) = >>=-eq-ok (in_values v allowed) _ h in
    e ∙ ap ok (of_not (reject_if-eq-ok _ _ p))

abbrev pub ToolAllowed : List Value → Value → Type 0
ToolAllowed allowed node =
    (name : Value) × (get node "name" ≡ ok name) × (in_values name allowed ≡ ok true)

check_tool_sound :
    (allowed : List Value) (node : Value)
    → check_tool allowed node ≡ ok tt
    → ToolAllowed allowed node
unfolding check_tool
check_tool_sound allowed node h =
    let (n, e, p) = >>=-eq-ok (get node "name") _ h in (n, e, require_in_sound n allowed _ p)

-- What accepted hooks show: the target and every tool of the graph are allowed by them.
pub record Hooked (graph security : Value) (target : String) : Type 0 where
  pub hooks : Value
  pub hooks_field : get_or security "policy_hooks" (dict []) ≡ ok hooks
  pub targets : Value
  pub targets_field : get_or hooks "allowed_target_runtimes" (arr nil) ≡ ok targets
  pub allowed_targets : List Value
  pub targets_set : to_set targets ≡ ok allowed_targets
  pub target_allowed : in_values (str target) allowed_targets ≡ ok true
  pub tools : Value
  pub tools_field : get_or hooks "allowed_tools" (arr nil) ≡ ok tools
  pub allowed_tools : List Value
  pub tools_set : to_set tools ≡ ok allowed_tools
  pub calls : List Value
  pub calls_listed : nodes_of_type "tool_call" graph ≡ ok calls
  pub calls_allowed : All (ToolAllowed allowed_tools) calls

pub check_hooks_sound :
    (graph security : Value) (target : String)
    → check_hooks graph security target ≡ ok tt
    → Hooked graph security target
unfolding check_hooks
check_hooks_sound graph security target h =
    let (k, e1, h1) = >>=-eq-ok (get_or security "policy_hooks" (dict [])) _ h in
    let (t, e2, h2) = >>=-eq-ok (get_or k "allowed_target_runtimes" (arr nil)) _ h1 in
    let (a, e3, h3) = >>=-eq-ok (to_set t) _ h2 in
    let (_, p1, h4) = >>=-eq-ok (require_in (str target) a _) _ h3 in
    let (l, e4, h5) = >>=-eq-ok (get_or k "allowed_tools" (arr nil)) _ h4 in
    let (b, e5, h6) = >>=-eq-ok (to_set l) _ h5 in
    let (c, e6, h7) = >>=-eq-ok (nodes_of_type "tool_call" graph) _ h6 in
    record {
      hooks = k;
      hooks_field = e1;
      targets = t;
      targets_field = e2;
      allowed_targets = a;
      targets_set = e3;
      target_allowed = require_in_sound (str target) a _ p1;
      tools = l;
      tools_field = e4;
      allowed_tools = b;
      tools_set = e5;
      calls = c;
      calls_listed = e6;
      calls_allowed = All-map c (check_tool_sound b) (for_each-eq-ok c (check_tool b) h7);
    }
