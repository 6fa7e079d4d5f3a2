-- ===== src/Artifacts.antt =====
-- examples/agent-memory-graph/local_agent.py: the export policy and the record of an artifact, the
-- verification of a package's blobs, and their restoration into a workspace. A step that writes
-- returns the files beside its result, an error too.
pub mod Entries
pub mod Restore
pub mod Outcome
use permeant_os.Prelude.{
  ℕ, String, ◌<>◌, Bool, true, false, not, ◌||◌, List, [], ◌∷◌, ◌++◌, ◌==◌, if◌then◌else◌, Option,
  none, some, contains, length,
}
use permeant_os.Py.Value.{
  Value, null, str, int, bool, arr, obj, Fields, is_str, is_true, truthy, dict, list, fields,
}
use permeant_os.Py.Result.{Exc, Result, ok, raise, invalid, file_not_found, ◌>>=◌, ◌>>◌, reject_if}
use permeant_os.Py.Dict.{get, get_or, get_item, iter, insert}
use permeant_os.Py.Equal.{py_eq}
use permeant_os.Py.Path.{PurePath, child, as_posix}
use permeant_os.Hashing.{sha256_bytes}
use permeant_os.Paths.{
  content_addressed_blob_path, safe_package_relative_path, safe_workspace_relative_path,
}
use permeant_os.Files.{Files, read, file_sha256_and_size, copy_file_streaming_with_hash}

-- `ArtifactExportPolicy`
pub record ExportPolicy : Type 0 where
  pub exclude_paths : List String
  pub redact_paths : List String

unfoldable pub disposition_for : ExportPolicy → String → String
disposition_for policy path =
    if contains policy.exclude_paths path
    then "excluded"
    else if contains policy.redact_paths path
    then "redacted"
    else "packaged"

pub record ArtifactRecord : Type 0 where
  pub path : String
  pub content_hash : String
  pub size_bytes : ℕ
  pub media_type : String
  pub disposition : String
  pub blob_path : Option String
  pub restore_policy : String
  pub target_path : String
  pub rebind_required : Bool

add_blob : Option String → Fields → Fields
add_blob none fs = fs
add_blob (some b) fs = insert "blob_path" (str b) fs

add_rebind : Bool → Fields → Fields
add_rebind false fs = fs
add_rebind true fs = insert "rebind_required" (bool true) fs

unfoldable pub manifest_artifact : ArtifactRecord → Value
unfolding add_blob add_rebind
manifest_artifact r = obj (
    add_rebind r.rebind_required (
      add_blob r.blob_path (
        fields (
          ("path", str r.path)
          ∷ ("sha256", str r.content_hash)
          ∷ ("size_bytes", int r.size_bytes)
          ∷ ("media_type", str r.media_type)
          ∷ ("restore_policy", str r.restore_policy)
          ∷ ("target_path", str r.target_path)
          ∷ ("packaging", str r.disposition)
          ∷ []))))

unfoldable pub artifact_policy_entries : ArtifactRecord → String → Value
artifact_policy_entries r disposition =
    if r.disposition == disposition
    then list (dict (("path", str r.path) ∷ ("reason", str "export_policy") ∷ []) ∷ [])
    else list []

-- `if test: raise ImportVerificationError(f"…{artifact['path']}")`
unfoldable pub reject_artifact_if : Bool → Value → String → Result (Unit {0})
reject_artifact_if false artifact message = ok tt
reject_artifact_if true artifact message = do
  p ← get_item artifact "path"
  raise (invalid message (p ∷ []))

-- the same with `artifact.get('path', '<unknown>')`
unfoldable pub reject_unknown_if : Bool → Value → String → Result (Unit {0})
reject_unknown_if false artifact message = ok tt
reject_unknown_if true artifact message = do
  p ← get_or artifact "path" (str "<unknown>")
  raise (invalid message (p ∷ []))

validate_external : Value → Value → Result (Unit {0})
unfolding reject_artifact_if
validate_external artifact blob_path = do
  reject_artifact_if (truthy blob_path) artifact
      "external rebind artifact must not include a blob path: {}"
  rebind ← get artifact "rebind_required"
  reject_artifact_if (not (is_true rebind)) artifact
      "external artifact must be explicitly marked rebindable: {}"

unfoldable pub validate_artifact_manifest_entry : Value → Result (Unit {0})
unfolding validate_external reject_unknown_if
validate_artifact_manifest_entry artifact = do
  policy ← get_or artifact "restore_policy" (str "required")
  blob_path ← get artifact "blob_path"
  sha ← get artifact "sha256"
  reject_unknown_if (not (truthy sha)) artifact "artifact is missing sha256 evidence: {}"
  if is_str policy "external_rebind"
      then validate_external artifact blob_path
      else reject_unknown_if (not (truthy blob_path)) artifact
          "unresolved artifact is not explicitly rebindable: {}"

pub data Verified : Type 0 where
  rebind : Value → Value → Verified
  blob : Value → Value → String → Verified

pub data Restored : Type 0 where
  rebind_required : Value → Value → Restored
  quarantined : Value → PurePath → Value → String → ℕ → Restored
  restored : Value → PurePath → Value → String → ℕ → Restored

-- What the reading half of a round of `restore_artifacts` decides: an external artifact, or a copy
-- from a source to a target, with the path below the workspace that the report names.
pub data Plan : Type 0 where
  external : Value → Value → Plan
  quarantine : Value → Value → PurePath → PurePath → Plan
  copy : Value → Value → PurePath → PurePath → PurePath → Plan

raise_naming : Value → (Value → Exc) → Result Verified
raise_naming artifact e = do p ← get_item artifact "path"; raise (e p)

-- the tests of the digest and the size of a blob
verify_hash : Value → Value → Value → String → ℕ → Result Verified
unfolding raise_naming
verify_hash artifact blob_path expected hash size =
    if is_str expected hash
    then (do
      n ← get_item artifact "size_bytes"
      if py_eq (int size) n
          then (do p ← get_item artifact "path"; ok (blob p blob_path hash))
          else raise_naming artifact (λ p. invalid "artifact size mismatch for {}" (p ∷ [])))
    else raise_naming artifact (λ p.
      invalid "artifact hash mismatch for {}: expected {}, got {}" (p ∷ expected ∷ str hash ∷ []))

-- the blob of an artifact, and where it belongs below the workspace
pub record Located : Type 0 where
  pub source : PurePath
  pub path : Value
  pub relative : PurePath

unfoldable pub locate : PurePath → Value → Result Located
locate package_dir artifact = do
  blob_path ← get_item artifact "blob_path"
  blob_relative ← safe_package_relative_path blob_path
  p ← get_item artifact "path"
  target_path ← get_or artifact "target_path" p
  target_relative ← safe_workspace_relative_path target_path
  ok (record { source = child package_dir blob_relative; path = p; relative = target_relative })

abbrev pub quarantine_dir : PurePath
quarantine_dir = record { absolute = false; parts = ".permeantos-quarantine" ∷ [] }

-- the test of the digest against the manifest
unfoldable pub choose : PurePath → Located → Value → Value → String → Result Plan
choose workspace_dir l policy expected hash =
    if is_str expected hash
    then ok (copy l.path policy l.source (child workspace_dir l.relative) l.relative)
    else if is_str policy "quarantine_on_mismatch"
    then ok
        (quarantine l.path policy l.source (child (child workspace_dir quarantine_dir) l.relative))
    else raise (
        invalid "artifact hash mismatch while restoring {}: expected {}, got {}"
          (l.path ∷ expected ∷ str hash ∷ []))

unfoldable pub finish :
    (String → ℕ → Restored) → Result (String × ℕ) × Files → Result Restored × Files
finish report (raise e, fs) = (raise e, fs)
finish report (ok (hash, size), fs) = (ok (report hash size), fs)

unfoldable pub collect : Restored → Result (List Restored) × Files → Result (List Restored) × Files
collect r (raise e, fs) = (raise e, fs)
collect r (ok rs, fs) = (ok (r ∷ rs), fs)

-- the rest of the loop runs only after a round that did not raise
unfoldable pub and_then :
    Result Restored → Files → Result (List Restored) × Files → Result (List Restored) × Files
unfolding collect
and_then (raise e) fs rest = (raise e, fs)
and_then (ok r) fs rest = collect r rest

module _ (hexdigest : List ℕ → String) where
  unfoldable pub build_artifact_record_from_bytes : String → List ℕ → ExportPolicy → ArtifactRecord
  unfolding disposition_for content_addressed_blob_path
  build_artifact_record_from_bytes p bytes policy =
      let hash = sha256_bytes hexdigest bytes in
      let disposition = disposition_for policy p in
      let packaged = disposition == "packaged" in
      record {
        path = p;
        content_hash = hash;
        size_bytes = length bytes;
        media_type = "application/json";
        disposition = disposition;
        blob_path = if packaged then some (content_addressed_blob_path hash p) else none;
        restore_policy = if packaged then "required" else "external_rebind";
        target_path = p;
        rebind_required = not packaged;
      }

  verify_blob : PurePath → Value → Files → Result Verified
  verify_blob package_dir artifact fs = do
    blob_path ← get_item artifact "blob_path"
    relative ← safe_package_relative_path blob_path
    (hash, size) ← (elim (file_sha256_and_size hexdigest (child package_dir relative) fs) [
      | ok r ↦ ok r
      | raise e ↦ raise (invalid "missing artifact blob: {}" (blob_path ∷ []))
    ])
    expected ← get_item artifact "sha256"
    verify_hash artifact blob_path expected hash size

  unfoldable pub verify_artifact : PurePath → Value → Files → Result Verified
  unfolding verify_blob verify_hash
  verify_artifact package_dir artifact fs = do
    validate_artifact_manifest_entry artifact
    policy ← get artifact "restore_policy"
    if is_str policy "external_rebind"
        then (do p ← get_item artifact "path"; sha ← get artifact "sha256"; ok (rebind p sha))
        else verify_blob package_dir artifact fs

  unfoldable pub verify_all : PurePath → List Value → Files → Result (List Verified)
  verify_all package_dir [] fs = ok []
  verify_all package_dir (a ∷ artifacts) fs = do
    let rest = verify_all package_dir artifacts fs
    v ← verify_artifact package_dir a fs
    vs ← rest
    ok (v ∷ vs)

  unfoldable pub verify_artifacts : PurePath → Value → Files → Result (List Verified)
  verify_artifacts package_dir manifest fs = do
    artifacts ← get_item manifest "artifacts"
    listed ← iter artifacts
    verify_all package_dir listed fs

  unfoldable pub plan_blob : PurePath → PurePath → Value → Value → Files → Result Plan
  plan_blob package_dir workspace_dir artifact policy fs = do
    l ← locate package_dir artifact
    (hash, size) ← file_sha256_and_size hexdigest l.source fs
    expected ← get_item artifact "sha256"
    choose workspace_dir l policy expected hash

  unfoldable pub plan_restore : PurePath → PurePath → Value → Files → Result Plan
  plan_restore package_dir workspace_dir artifact fs = do
    policy ← get_or artifact "restore_policy" (str "required")
    if is_str policy "external_rebind"
        then (do p ← get_item artifact "path"; sha ← get artifact "sha256"; ok (external p sha))
        else plan_blob package_dir workspace_dir artifact policy fs

  -- the writing half of a round
  unfoldable pub run_plan : Plan → Files → Result Restored × Files
  unfolding finish
  run_plan (external p sha) fs = (ok (rebind_required p sha), fs)
  run_plan (quarantine p policy source target) fs =
      finish (quarantined p target policy)
        (copy_file_streaming_with_hash hexdigest source target fs)
  run_plan (copy p policy source target relative) fs =
      finish (restored p relative policy) (copy_file_streaming_with_hash hexdigest source target fs)

  run_planned : Result Plan → Files → Result Restored × Files
  unfolding run_plan
  run_planned (raise e) fs = (raise e, fs)
  run_planned (ok plan) fs = run_plan plan fs

  unfoldable pub restore_artifact : PurePath → PurePath → Value → Files → Result Restored × Files
  unfolding run_planned
  restore_artifact package_dir workspace_dir artifact fs =
      run_planned (plan_restore package_dir workspace_dir artifact fs) fs

  unfoldable pub restore_all :
      PurePath → PurePath → List Value → Files → Result (List Restored) × Files
  unfolding and_then
  restore_all package_dir workspace_dir [] fs = (ok [], fs)
  restore_all package_dir workspace_dir (a ∷ artifacts) fs =
      let (r, fs') = restore_artifact package_dir workspace_dir a fs in
      let rest = restore_all package_dir workspace_dir artifacts fs' in and_then r fs' rest

  restore_listed :
      PurePath → PurePath → Result (List Value) → Files → Result (List Restored) × Files
  unfolding restore_all
  restore_listed package_dir workspace_dir (raise e) fs = (raise e, fs)
  restore_listed package_dir workspace_dir (ok artifacts) fs =
      restore_all package_dir workspace_dir artifacts fs

  unfoldable pub restore_artifacts :
      PurePath → PurePath → Value → Files → Result (List Restored) × Files
  unfolding restore_listed
  restore_artifacts package_dir workspace_dir manifest fs =
      restore_listed package_dir workspace_dir
        (do artifacts ← get_item manifest "artifacts"; iter artifacts) fs
