-- ===== src/Security/Tests.antt =====
-- The tests of `validate_security_policy` on artifacts, credentials and secrets: what each shows.
use permeant_os.Prelude.{
  String, ◌≡◌, refl, Bool, true, false, not, List, [], ◌∷◌, arith, All, contains, subst, sym, ap,
  ◌∙◌,
}
use mathlib.Core.List.{append-eq-nil_iff}
use permeant_os.Py.Value.{Value, str, is_str, is_str_iff, is_true, truthy}
use permeant_os.Py.Result.{
  Result, Exc, ok, reject_if, reject_if-eq-ok, for_each, >>=-eq-ok, ok-injective,
}
use permeant_os.Py.Dict.{get, get_or}
use permeant_os.Py.Path.{path}
use permeant_os.Paths.{path_allowed_by_prefix}
use permeant_os.Paths.Allowed.{path_allowed_by_prefix_sound}
use permeant_os.Secrets.Sound.{HasSecret, find_forbidden_secret_material_iff}
use permeant_os.Security.{
  reject_findings, reject_node_if, require_allowed_path, check_artifact, check_credential,
  check_secrets,
}

pub of_not : {b : Bool} → not b ≡ false → b ≡ true
of_not {b} h = ground arith

pub text_known :
    (v : Value) (s : String) (x : Exc) → reject_if (not (is_str v s)) x ≡ ok tt → v ≡ str s
text_known v s x h = (is_str_iff v s).0 (of_not (reject_if-eq-ok _ x h))

-- A loop that returned has run its body on every element.
pub for_each-eq-ok {ℓ} :
    {A : Type ℓ} (xs : List A) (body : A → Result (Unit {0}))
    → for_each xs body ≡ ok tt
    → All (λ x. body x ≡ ok tt) xs
for_each-eq-ok [] body h = tt
for_each-eq-ok (x ∷ xs) body h =
    let (u, p, q) = >>=-eq-ok (body x) (λ _. for_each xs body) h in (p, for_each-eq-ok xs body q)

pub All-map {ℓ κ ρ} :
    {A : Type ℓ} {P : A → Type κ} {Q : A → Type ρ} (xs : List A)
    → ((x : A) → P x → Q x)
    → All P xs
    → All Q xs
All-map [] f h = tt
All-map (x ∷ xs) f h = (f x h.0, All-map xs f h.1)

-- A text whose path lies below `reports`, with no part `..`.
abbrev pub UnderReports : Value → Type 0
UnderReports v =
    (s : String) × (q : String) × (qs : List String) × (v ≡ str s)
    × (path s ≡ record { absolute = false; parts = "reports" ∷ q ∷ qs })
    × (contains ("reports" ∷ q ∷ qs) ".." ≡ false)

pub record ArtifactConfined (artifact : Value) : Type 0 where
  pub logical : Value
  pub logical_path : get_or artifact "path" (str "") ≡ ok logical
  pub logical_under : UnderReports logical
  pub target : Value
  pub target_path : get_or artifact "target_path" logical ≡ ok target
  pub target_under : UnderReports target

pub record CredentialRebound (node : Value) : Type 0 where
  pub external : get node "redaction_state" ≡ ok (str "external_only")
  pub required : Value
  pub required_field : get node "required" ≡ ok required
  pub required_true : is_true required ≡ true
  pub binding : Value
  pub binding_field : get node "binding" ≡ ok binding
  pub binding_given : truthy binding ≡ true

pub require_allowed_path_sound :
    (p : Value) (m : String) → require_allowed_path p m ≡ ok tt → UnderReports p
unfolding require_allowed_path
require_allowed_path_sound p m h =
    let (a, q, r) = >>=-eq-ok (path_allowed_by_prefix p) _ h in
    path_allowed_by_prefix_sound p (ground (arith, q))

pub check_artifact_sound :
    (artifact : Value) → check_artifact artifact ≡ ok tt → ArtifactConfined artifact
unfolding check_artifact
check_artifact_sound artifact h =
    let (p, e, h1) = >>=-eq-ok (get_or artifact "path" (str "")) _ h in
    let (u, h2, h3) =
      >>=-eq-ok (require_allowed_path p "artifact path is not allowed by security policy: {}") _
        h1 in
    let (p', e', h4) = >>=-eq-ok (get_or artifact "path" (str "")) _ h3 in
    let (t, d, h5) = >>=-eq-ok (get_or artifact "target_path" p') _ h4 in
    record {
      logical = p';
      logical_path = e';
      logical_under =
          subst UnderReports (ok-injective p p' (sym e ∙ e')) (require_allowed_path_sound p _ h2);
      target = t;
      target_path = d;
      target_under = require_allowed_path_sound t _ h5;
    }

pub reject_node_if-eq-ok :
    (b : Bool) (node : Value) (m : String) → reject_node_if b node m ≡ ok tt → b ≡ false
unfolding reject_node_if
reject_node_if-eq-ok false node m h = refl
reject_node_if-eq-ok true node m h = ground arith

pub check_credential_sound : (node : Value) → check_credential node ≡ ok tt → CredentialRebound node
unfolding check_credential
check_credential_sound node h =
    let (r, e1, h1) = >>=-eq-ok (get node "redaction_state") _ h in
    let (_, p1, h2) = >>=-eq-ok (reject_node_if (not (is_str r "external_only")) node _) _ h1 in
    let (q, e2, h3) = >>=-eq-ok (get node "required") _ h2 in
    let (_, p2, h4) = >>=-eq-ok (reject_node_if (not (is_true q)) node _) _ h3 in
    let (b, e3, p3) = >>=-eq-ok (get node "binding") _ h4 in
    record {
      external =
          e1 ∙ ap ok ((is_str_iff r "external_only").0 (of_not (reject_node_if-eq-ok _ node _ p1)));
      required = q;
      required_field = e2;
      required_true = of_not (reject_node_if-eq-ok _ node _ p2);
      binding = b;
      binding_field = e3;
      binding_given = of_not (reject_node_if-eq-ok _ node _ p3);
    }

no_findings : (fs : List String) → reject_findings fs ≡ ok tt → fs ≡ []
unfolding reject_findings
no_findings [] h = refl
no_findings (f ∷ fs) h = cc

pub check_secrets_sound :
    (graph manifest : Value)
    → check_secrets graph manifest ≡ ok tt
    → ¬ (HasSecret graph) × ¬ (HasSecret manifest)
unfolding check_secrets
check_secrets_sound graph manifest h =
    let (g, m) = append-eq-nil_iff.0 (no_findings _ h) in
    (
      (find_forbidden_secret_material_iff graph).0 g,
      (find_forbidden_secret_material_iff manifest).0 m,
    )
