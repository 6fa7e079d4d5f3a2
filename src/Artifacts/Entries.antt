-- ===== src/Artifacts/Entries.antt =====
-- The manifest entries that an export writes, under the test that an import makes of them.
use permeant_os.Prelude.{
  ℕ, String, ◌≡◌, List, true, false, Bool-cases, inl, inr, some, none, ◌==◌, ◌<>◌,
}
use permeant_os.Py.Value.{truthy, truthy-cons, str}
use permeant_os.Py.Result.{ok}
use permeant_os.Py.Dict.{insert, lookup, get_or}
use permeant_os.Paths.{content_addressed_blob_path}
use permeant_os.Hashing.{sha256_bytes}
use permeant_os.Artifacts.{
  ExportPolicy, manifest_artifact, validate_artifact_manifest_entry, validate_external,
  reject_unknown_if, reject_artifact_if, build_artifact_record_from_bytes, disposition_for,
}

-- a packaged artifact, with a digest and a blob
packaged_validates :
    (p h m t b d : String) (n : ℕ)
    → truthy (str h) ≡ true
    → truthy (str b) ≡ true
    → validate_artifact_manifest_entry (
        manifest_artifact (record {
          path = p;
          content_hash = h;
          size_bytes = n;
          media_type = m;
          disposition = d;
          blob_path = some b;
          restore_policy = "required";
          target_path = t;
          rebind_required = false;
        }))
      ≡ ok tt
unfolding validate_artifact_manifest_entry manifest_artifact insert lookup get_or reject_unknown_if
packaged_validates p h m t b d n x y = rw (x, y)

-- an artifact that is not packaged, with a digest
external_validates :
    (p h m t d : String) (n : ℕ)
    → truthy (str h) ≡ true
    → validate_artifact_manifest_entry (
        manifest_artifact (record {
          path = p;
          content_hash = h;
          size_bytes = n;
          media_type = m;
          disposition = d;
          blob_path = none;
          restore_policy = "external_rebind";
          target_path = t;
          rebind_required = true;
        }))
      ≡ ok tt
unfolding validate_artifact_manifest_entry manifest_artifact insert lookup get_or reject_unknown_if
    reject_artifact_if truthy validate_external
external_validates p h m t d n x = rw x

module _ (hexdigest : List ℕ → String) where
  digest_nonempty : (bytes : List ℕ) → truthy (str (sha256_bytes hexdigest bytes)) ≡ true
  unfolding sha256_bytes ◌<>◌
  digest_nonempty bytes = truthy-cons _ _

  blob_path_nonempty : (h p : String) → truthy (str (content_addressed_blob_path h p)) ≡ true
  unfolding content_addressed_blob_path ◌<>◌
  blob_path_nonempty h p = truthy-cons _ _

  -- Whatever the path, the content and the export policy, the entry that an export writes for an
  -- artifact passes the test that an import makes of each entry.
  pub validate-manifest_artifact :
      (p : String) (bytes : List ℕ) (policy : ExportPolicy)
      → validate_artifact_manifest_entry
          (manifest_artifact (build_artifact_record_from_bytes hexdigest p bytes policy))
        ≡ ok tt
  unfolding build_artifact_record_from_bytes
  validate-manifest_artifact p bytes policy =
      elim (Bool-cases (disposition_for policy p == "packaged")) [
        | inl e ↦ rw e (
            packaged_validates p _ _ p _ _ _ (digest_nonempty bytes)
              (blob_path_nonempty (sha256_bytes hexdigest bytes) p))
        | inr n ↦ rw n (external_validates p _ _ p _ _ (digest_nonempty bytes))
      ]
