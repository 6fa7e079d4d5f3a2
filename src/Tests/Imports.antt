-- ===== src/Tests/Imports.antt =====
-- The theorems on the security policy, at a concrete graph and manifest.
use permeant_os.Prelude.{◌≡◌, refl, contains, [], ◌∷◌, ◌<>◌}
use permeant_os.Py.Value.{Value, str, dict, list, truthy}
use permeant_os.Py.Result.{ok}
use permeant_os.Py.Dict.{lookup, get_or, get_item, iter}
use permeant_os.Py.Path.{path, as_posix}
use permeant_os.Py.Text.{encode}
use permeant_os.Py.Json.{dumps}
use permeant_os.Py.Equal.{member, py_eq, to_set, in_values}
use permeant_os.Constants.{runtime_id, trusted_signer_id}
use permeant_os.Hashing.{sha256_json, graph_root_signature}
use permeant_os.Graph.{nodes_of_type}
use permeant_os.Paths.{path_allowed_by_prefix}
use permeant_os.Secrets.{is_forbidden_key, find_forbidden_secret_material}
use permeant_os.Security.{
  Report, validate_security_policy, build_security_attestation, check_signature, check_hooks,
  check_paths, check_secrets, check_credentials, check_provenance, check_tool, check_artifact,
  check_artifact_node, check_credential,
}
use permeant_os.Security.Policy.{Accepted, validate_security_policy_sound}
use permeant_os.Tests.{digest, graph, artifact, value_of}

abbrev manifest : Value
unfolding build_security_attestation
manifest = dict (
    ("artifacts", list (artifact ∷ []))
    ∷ ("security", value_of (build_security_attestation digest graph))
    ∷ [])

abbrev report : Report
report = record {
  signer_id = str trusted_signer_id;
  target_runtime = runtime_id;
  provenance_events = 1;
}

accepted : validate_security_policy digest graph manifest runtime_id ≡ ok report
unfolding validate_security_policy build_security_attestation check_signature check_hooks
    check_paths check_secrets check_credentials check_provenance check_tool check_artifact
    check_artifact_node check_credential graph_root_signature nodes_of_type path_allowed_by_prefix
    find_forbidden_secret_material lookup get_or get_item iter path as_posix py_eq to_set in_values
    truthy contains ◌<>◌ member sha256_json encode dumps is_forbidden_key
accepted = refl

validate_security_policy_sound_example : Accepted digest graph manifest runtime_id
validate_security_policy_sound_example =
    validate_security_policy_sound digest graph manifest runtime_id report accepted
