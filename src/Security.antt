-- ===== src/Security.antt =====
-- examples/agent-memory-graph/local_agent.py: `build_security_attestation` and
-- `validate_security_policy`, whose tests are grouped into one function for each of its parts.
pub mod Tests
pub mod Policy
pub mod Attested
pub mod Roundtrip
use permeant_os.Prelude.{
  ℕ, String, ◌<>◌, Bool, true, false, not, ◌&&◌, ◌||◌, List, [], ◌∷◌, ◌++◌, if◌then◌else◌, map,
  Option, none, some, get_last?, length,
}
use permeant_os.Py.Value.{
  Value, null, str, arr, obj, nil, Fields, end, is_str, is_true, truthy, dict, list, to_list,
}
use permeant_os.Py.Result.{
  Result, ok, raise, invalid, type_error, key_error, ◌>>=◌, ◌>>◌, reject_if, for_each, index_error,
}
use permeant_os.Py.Dict.{get, get_or, get_item, iter}
use permeant_os.Py.Equal.{py_eq, to_set, in_values}
use permeant_os.Constants.{
  created_at, runtime_id, security_policy_version, root_signature_algorithm, trusted_signer_id,
  allowed_target_runtimes, allowed_tool_names, allowed_artifact_path_prefixes,
}
use permeant_os.Hashing.{graph_root_signature}
use permeant_os.Graph.{nodes_of_type}
use permeant_os.Paths.{path_allowed_by_prefix}
use permeant_os.Secrets.{find_forbidden_secret_material}

texts : List String → Value
texts xs = list (map str xs)

pub record Report : Type 0 where
  pub signer_id : Value
  pub target_runtime : String
  pub provenance_events : ℕ

-- `if name not in allowed: raise …`
unfoldable pub require_in : Value → List Value → String → Result (Unit {0})
require_in v allowed message = do
  found ← in_values v allowed
  reject_if (not found) (invalid message (v ∷ []))

unfoldable pub check_tool : List Value → Value → Result (Unit {0})
unfolding require_in
check_tool allowed node = do
  name ← get node "name"
  require_in name allowed "tool is not allowed by security policy: {}"

unfoldable pub require_allowed_path : Value → String → Result (Unit {0})
require_allowed_path p message = do
  allowed ← path_allowed_by_prefix p
  reject_if (not allowed) (invalid message (p ∷ []))

unfoldable pub check_artifact : Value → Result (Unit {0})
unfolding require_allowed_path
check_artifact artifact = do
  p ← get_or artifact "path" (str "")
  require_allowed_path p "artifact path is not allowed by security policy: {}"
  fallback ← get_or artifact "path" (str "")
  target_path ← get_or artifact "target_path" fallback
  require_allowed_path target_path "artifact target path is not allowed by security policy: {}"

unfoldable pub check_artifact_node : Value → Result (Unit {0})
unfolding require_allowed_path
check_artifact_node node = do
  p ← get node "path"
  if truthy p
      then require_allowed_path p "artifact node path is not allowed by security policy: {}"
      else ok tt

-- `if test: raise ImportVerificationError(f"…{node['id']}")`
unfoldable pub reject_node_if : Bool → Value → String → Result (Unit {0})
reject_node_if false node message = ok tt
reject_node_if true node message = do id ← get_item node "id"; raise (invalid message (id ∷ []))

unfoldable pub check_credential : Value → Result (Unit {0})
unfolding reject_node_if
check_credential node = do
  redaction ← get node "redaction_state"
  reject_node_if (not (is_str redaction "external_only")) node
      "credential reference must be external_only: {}"
  required ← get node "required"
  reject_node_if (not (is_true required)) node "credential reference must require target rebind: {}"
  binding ← get node "binding"
  reject_node_if (not (truthy binding)) node "credential reference must include a rebind hint: {}"

unfoldable pub reject_findings : List String → Result (Unit {0})
reject_findings [] = ok tt
reject_findings (f ∷ fs) =
    raise (invalid "raw secret material is not allowed: {}" (map str (f ∷ fs)))

unfoldable pub check_secrets : Value → Value → Result (Unit {0})
unfolding reject_findings
check_secrets graph manifest =
    reject_findings
      (find_forbidden_secret_material graph ++ find_forbidden_secret_material manifest)

unfoldable pub last_of : Option Value → Result Value
last_of none = raise index_error
last_of (some v) = ok v

-- `chain[-1]`
unfoldable pub last_item : Value → Result Value
last_item (arr vs) = last_of (get_last? (to_list vs))
last_item (obj fs) = raise (key_error "-1")
last_item v = do chars ← iter v; last_of (get_last? chars)

unfoldable pub check_provenance : Value → Value → Result ℕ
unfolding last_item last_of
check_provenance graph security = do
  chain ← get_or security "provenance_chain" (arr nil)
  reject_if (not (truthy chain)) (invalid "missing provenance chain" [])
  latest ← last_item chain
  latest_id ← get latest "graph_id"
  graph_id ← get graph "graph_id"
  latest_hash ← get latest "graph_hash"
  graph_hash ← get graph "graph_hash"
  reject_if (not (py_eq latest_id graph_id) || not (py_eq latest_hash graph_hash))
      (invalid "provenance chain does not match graph root" [])
  events ← iter chain
  ok (length events)

-- the policy hooks: the target runtime, and the tools
unfoldable pub check_hooks : Value → Value → String → Result (Unit {0})
unfolding require_in
check_hooks graph security target_runtime = do
  hooks ← get_or security "policy_hooks" (dict [])
  targets ← get_or hooks "allowed_target_runtimes" (arr nil)
  allowed_targets ← to_set targets
  require_in (str target_runtime) allowed_targets
      "target runtime is not allowed by security policy: {}"
  tools ← get_or hooks "allowed_tools" (arr nil)
  allowed_tools ← to_set tools
  calls ← nodes_of_type "tool_call" graph
  for_each calls (check_tool allowed_tools)

unfoldable pub check_paths : Value → Value → Result (Unit {0})
check_paths graph manifest = do
  artifacts ← get_or manifest "artifacts" (arr nil)
  listed ← iter artifacts
  for_each listed check_artifact
  nodes ← nodes_of_type "artifact" graph
  for_each nodes check_artifact_node

unfoldable pub check_credentials : Value → Result (Unit {0})
check_credentials graph = do
  nodes ← nodes_of_type "credential_ref" graph
  for_each nodes check_credential

module _ (hexdigest : List ℕ → String) where
  -- the attestation itself: versions, the signer, and the signature of the graph's root
  unfoldable pub check_signature : Value → Value → Result Value
  check_signature graph security = do
    reject_if (not (truthy security)) (invalid "missing security attestation" [])
    version ← get security "policy_version"
    reject_if (not (is_str version security_policy_version))
        (invalid "unsupported security policy version" [])
    algorithm ← get security "signature_algorithm"
    reject_if (not (is_str algorithm root_signature_algorithm))
        (invalid "unsupported graph root signature algorithm" [])
    signer_id ← get security "signer_id"
    ids ← get_or security "trusted_signer_ids" (arr nil)
    trusted ← to_set ids
    known ← in_values signer_id trusted
    reject_if (not known) (invalid "graph root signer is not trusted" [])
    graph_hash ← get_item graph "graph_hash"
    signature ← get security "graph_root_signature"
    reject_if (not (is_str signature (graph_root_signature hexdigest graph_hash signer_id)))
        (invalid "graph root signature mismatch" [])
    ok signer_id

  unfoldable pub validate_security_policy : Value → Value → String → Result Report
  validate_security_policy graph manifest target_runtime = do
    security ← get manifest "security"
    signer_id ← check_signature graph security
    check_hooks graph security target_runtime
    check_paths graph manifest
    check_secrets graph manifest
    check_credentials graph
    events ← check_provenance graph security
    ok (record {
      signer_id = signer_id;
      target_runtime = target_runtime;
      provenance_events = events;
    })

  unfoldable pub build_security_attestation : Value → Result Value
  unfolding texts
  build_security_attestation graph = do
    graph_hash ← get_item graph "graph_hash"
    graph_id ← get_item graph "graph_id"
    ok (
        dict (
          ("policy_version", str security_policy_version)
          ∷ ("signature_algorithm", str root_signature_algorithm)
          ∷ ("signer_id", str trusted_signer_id)
          ∷ (
            "graph_root_signature",
            str (graph_root_signature hexdigest graph_hash (str trusted_signer_id)),
          )
          ∷ ("trusted_signer_ids", texts (trusted_signer_id ∷ []))
          ∷ (
            "provenance_chain",
            list (
                dict (
                  ("graph_id", graph_id)
                  ∷ ("event", str "exported")
                  ∷ ("created_at", str created_at)
                  ∷ ("graph_hash", graph_hash)
                  ∷ ("signer_id", str trusted_signer_id)
                  ∷ [])
                ∷ []),
          )
          ∷ (
            "policy_hooks",
            dict (
                ("allowed_target_runtimes", texts allowed_target_runtimes)
                ∷ ("allowed_tools", texts allowed_tool_names)
                ∷ ("allowed_artifact_path_prefixes", texts allowed_artifact_path_prefixes)
                ∷ ("credential_policy", str "rebind_only")
                ∷ ("secret_material_policy", str "reject_raw_secret_keys")
                ∷ []),
          )
          ∷ []))
