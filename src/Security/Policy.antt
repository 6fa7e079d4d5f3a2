-- ===== src/Security/Policy.antt =====
-- What `validate_security_policy` guarantees of a graph and a manifest that it accepts.
use permeant_os.Prelude.{ℕ, String, ◌≡◌, true, false, not, ◌||◌, List, arith, All}
use permeant_os.Py.Value.{Value, arr, nil, truthy}
use permeant_os.Py.Result.{ok, reject_if, reject_if-eq-ok, for_each, >>=-eq-ok}
use permeant_os.Py.Dict.{get, get_or, iter}
use permeant_os.Py.Equal.{py_eq}
use permeant_os.Secrets.Sound.{HasSecret}
use permeant_os.Security.{
  check_artifact, check_credential, check_secrets, check_signature, check_artifact_node, last_item,
  check_provenance, validate_security_policy, nodes_of_type, check_paths, check_credentials, Report,
  check_hooks,
}
use permeant_os.Security.Tests.{
  for_each-eq-ok, All-map, UnderReports, ArtifactConfined, CredentialRebound,
  require_allowed_path_sound, check_artifact_sound, check_credential_sound, check_secrets_sound,
}
use permeant_os.Security.Attested.{Attested, check_signature_sound, Hooked, check_hooks_sound}

-- The node's path is false in Python, as one that is not there is, or lies below `reports`.
abbrev pub NodeConfined : Value → Type 0
NodeConfined node = (p : Value) × (get node "path" ≡ ok p) × (truthy p ≡ true → UnderReports p)

check_artifact_node_sound : (node : Value) → check_artifact_node node ≡ ok tt → NodeConfined node
unfolding check_artifact_node
check_artifact_node_sound node h =
    let (p, e, q) = >>=-eq-ok (get node "path") _ h in
    (p, e, λ t. require_allowed_path_sound p _ (rw t at q))

-- The last event of the provenance chain names the graph and its hash.
pub record Descends (graph security : Value) : Type 0 where
  pub chain : Value
  pub chain_field : get_or security "provenance_chain" (arr nil) ≡ ok chain
  pub latest : Value
  pub latest_event : last_item chain ≡ ok latest
  pub latest_id : Value
  pub latest_id_field : get latest "graph_id" ≡ ok latest_id
  pub graph_id : Value
  pub graph_id_field : get graph "graph_id" ≡ ok graph_id
  pub latest_hash : Value
  pub latest_hash_field : get latest "graph_hash" ≡ ok latest_hash
  pub graph_hash : Value
  pub graph_hash_field : get graph "graph_hash" ≡ ok graph_hash
  pub same_id : py_eq latest_id graph_id ≡ true
  pub same_hash : py_eq latest_hash graph_hash ≡ true

check_provenance_sound :
    (graph security : Value) (n : ℕ)
    → check_provenance graph security ≡ ok n
    → Descends graph security
unfolding check_provenance
check_provenance_sound graph security n h =
    let (c, e1, h1) = >>=-eq-ok (get_or security "provenance_chain" (arr nil)) _ h in
    let (_, _, h2) = >>=-eq-ok (reject_if (not (truthy c)) _) _ h1 in
    let (l, e2, h3) = >>=-eq-ok (last_item c) _ h2 in
    let (i, e3, h4) = >>=-eq-ok (get l "graph_id") _ h3 in
    let (j, e4, h5) = >>=-eq-ok (get graph "graph_id") _ h4 in
    let (x, e5, h6) = >>=-eq-ok (get l "graph_hash") _ h5 in
    let (y, e6, h7) = >>=-eq-ok (get graph "graph_hash") _ h6 in
    let (_, p, _) = >>=-eq-ok (reject_if (not (py_eq i j) || not (py_eq x y)) _) _ h7 in
    let neither : not (py_eq i j) || not (py_eq x y) ≡ false = reject_if-eq-ok _ _ p in
    record {
      chain = c;
      chain_field = e1;
      latest = l;
      latest_event = e2;
      latest_id = i;
      latest_id_field = e3;
      graph_id = j;
      graph_id_field = e4;
      latest_hash = x;
      latest_hash_field = e5;
      graph_hash = y;
      graph_hash_field = e6;
      same_id = ground (arith, neither);
      same_hash = ground (arith, neither);
    }

pub record Accepted (hexdigest : List ℕ → String) (graph manifest : Value) (target : String)
    : Type 0 where
  pub security : Value
  pub security_field : get manifest "security" ≡ ok security
  pub signer : Value
  pub attested : Attested hexdigest graph security signer
  pub hooked : Hooked graph security target
  pub artifacts : Value
  pub artifacts_field : get_or manifest "artifacts" (arr nil) ≡ ok artifacts
  pub listed : List Value
  pub artifacts_listed : iter artifacts ≡ ok listed
  pub artifacts_confined : All ArtifactConfined listed
  pub nodes : List Value
  pub nodes_listed : nodes_of_type "artifact" graph ≡ ok nodes
  pub nodes_confined : All NodeConfined nodes
  pub no_secret : ¬ (HasSecret graph) × ¬ (HasSecret manifest)
  pub credentials : List Value
  pub credentials_listed : nodes_of_type "credential_ref" graph ≡ ok credentials
  pub credentials_rebound : All CredentialRebound credentials
  pub descends : Descends graph security

-- If the validation returns, then the attestation has the known versions, a trusted signer and the
-- signature of the graph hash; the target runtime and every tool call are allowed by the hooks;
-- every artifact of the manifest, and every artifact node whose path is not false in Python, that is
-- null, `false`, zero or empty, lies below `reports`; neither value has a forbidden key at any depth; every credential is external, required
-- and bound; and the last event of the provenance chain names the graph and its hash.
pub validate_security_policy_sound :
    (hexdigest : List ℕ → String) (graph manifest : Value) (target : String) (r : Report)
    → validate_security_policy hexdigest graph manifest target ≡ ok r
    → Accepted hexdigest graph manifest target
unfolding validate_security_policy check_paths check_credentials
validate_security_policy_sound hexdigest graph manifest target r h =
    let (s, e1, h1) = >>=-eq-ok (get manifest "security") _ h in
    let (g, e2, h2) = >>=-eq-ok (check_signature hexdigest graph s) _ h1 in
    let (_, e3, h3) = >>=-eq-ok (check_hooks graph s target) _ h2 in
    let (_, e4, h4) = >>=-eq-ok (check_paths graph manifest) _ h3 in
    let (a, p1, q1) = >>=-eq-ok (get_or manifest "artifacts" (arr nil)) _ e4 in
    let (l, p2, q2) = >>=-eq-ok (iter a) _ q1 in
    let (_, p3, q3) = >>=-eq-ok (for_each l check_artifact) _ q2 in
    let (n, p4, q4) = >>=-eq-ok (nodes_of_type "artifact" graph) _ q3 in
    let (_, e5, h5) = >>=-eq-ok (check_secrets graph manifest) _ h4 in
    let (_, e6, h6) = >>=-eq-ok (check_credentials graph) _ h5 in
    let (c, p5, q5) = >>=-eq-ok (nodes_of_type "credential_ref" graph) _ e6 in
    let (k, e7, _) = >>=-eq-ok (check_provenance graph s) _ h6 in
    record {
      security = s;
      security_field = e1;
      signer = g;
      attested = check_signature_sound hexdigest graph s g e2;
      hooked = check_hooks_sound graph s target e3;
      artifacts = a;
      artifacts_field = p1;
      listed = l;
      artifacts_listed = p2;
      artifacts_confined = All-map l check_artifact_sound (for_each-eq-ok l check_artifact p3);
      nodes = n;
      nodes_listed = p4;
      nodes_confined =
          All-map n check_artifact_node_sound (for_each-eq-ok n check_artifact_node q4);
      no_secret = check_secrets_sound graph manifest e5;
      credentials = c;
      credentials_listed = p5;
      credentials_rebound = All-map c check_credential_sound (for_each-eq-ok c check_credential q5);
      descends = check_provenance_sound graph s k e7;
    }
