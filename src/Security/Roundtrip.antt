-- ===== src/Security/Roundtrip.antt =====
-- The attestation that an export builds, under the test that an import makes of it.
use permeant_os.Prelude.{ℕ, String, ◌≡◌, refl, List}
use permeant_os.Py.Value.{Value, str, is_str_self, truthy}
use permeant_os.Py.Result.{ok, >>=-eq-ok, ok-injective}
use permeant_os.Py.Dict.{get_item, get_or, lookup, iter}
use permeant_os.Py.Equal.{to_set, in_values, member, py_eq}
use permeant_os.Constants.{trusted_signer_id}
use permeant_os.Security.{build_security_attestation, check_signature}

-- The attestation that is built for a graph passes the test of the attestation for that graph, with
-- the trusted signer.
pub check_signature-build :
    (hexdigest : List ℕ → String) (graph security : Value)
    → build_security_attestation hexdigest graph ≡ ok security
    → check_signature hexdigest graph security ≡ ok (str trusted_signer_id)
unfolding build_security_attestation check_signature get_or lookup to_set in_values member py_eq
    iter truthy
check_signature-build hexdigest graph security h =
    let (g, e, h1) = >>=-eq-ok (get_item graph "graph_hash") _ h in
    let (i, _, h2) = >>=-eq-ok (get_item graph "graph_id") _ h1 in
    rw (← ok-injective _ security h2) (rw e (rw is_str_self refl))
