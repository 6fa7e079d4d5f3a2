-- ===== src/Tests/Restoring.antt =====
-- The theorems on files and on the restoration of artifacts, at a package of one artifact.
use permeant_os.Prelude.{
  ◌≡◌, ◌≢◌, refl, contains, [], ◌∷◌, ◌<>◌, some, List, ℕ, length, false, true,
}
use permeant_os.Py.Value.{Value, str, dict, list}
use permeant_os.Py.Result.{ok}
use permeant_os.Py.Dict.{lookup, get_or, get_item}
use permeant_os.Py.Path.{PurePath, path, child}
use permeant_os.Hashing.{sha256_bytes}
use permeant_os.Paths.{safe_package_relative_path, safe_workspace_relative_path}
use permeant_os.Files.{
  same_path, take, drop, stream_file, stream_chunk_size, read, open_read, stream,
  copy_file_streaming_with_hash, file_sha256_and_size,
}
use permeant_os.Files.Streaming.{copy_file_streaming_with_hash_lem}
use permeant_os.Artifacts.{
  ExportPolicy, copy, restored, restore_artifact, restore_artifacts, plan_restore, plan_blob,
  locate, choose, validate_artifact_manifest_entry, manifest_artifact,
  build_artifact_record_from_bytes,
}
use permeant_os.Artifacts.Entries.{validate-manifest_artifact}
use permeant_os.Artifacts.Restore.{Below, Sited}
use permeant_os.Artifacts.Outcome.{
  restore_artifacts_keeps, restore_artifact_copies, restore_artifact_empties,
}
use permeant_os.Tests.{digest, artifact, package_dir, workspace, blob, files}

abbrev hashed : List ℕ
hashed = 35 ∷ 10 ∷ []

read-blob : read blob files ≡ some hashed
unfolding read same_path
read-blob = refl

abbrev report : PurePath
report = record { absolute = false; parts = "reports" ∷ "a.md" ∷ [] }

abbrev target : PurePath
target = record { absolute = true; parts = "work" ∷ "reports" ∷ "a.md" ∷ [] }

target_new : target ≢ blob
target_new e = cc e

copy_file_streaming_with_hash_lem_example :
    ((copy_file_streaming_with_hash digest blob target files).0
      ≡ ok (sha256_bytes digest hashed, length hashed))
    × (read target (copy_file_streaming_with_hash digest blob target files).1 ≡ some hashed)
    × ((q : PurePath)
        → target ≢ q
        → read q (copy_file_streaming_with_hash digest blob target files).1 ≡ read q files)
copy_file_streaming_with_hash_lem_example =
    copy_file_streaming_with_hash_lem digest blob target files hashed read-blob target_new

abbrev policy : ExportPolicy
policy = record { exclude_paths = "logs/b.txt" ∷ []; redact_paths = [] }

validate-manifest_artifact_example :
    validate_artifact_manifest_entry
      (manifest_artifact (build_artifact_record_from_bytes digest "logs/b.txt" hashed policy))
    ≡ ok tt
validate-manifest_artifact_example = validate-manifest_artifact digest "logs/b.txt" hashed policy

outside : ¬ (Below workspace blob)
outside (rest, e, _, _) = cc e

abbrev manifest : Value
manifest = dict (("artifacts", list (artifact ∷ [])) ∷ [])

restore_artifacts_keeps_example :
    read blob (restore_artifacts digest package_dir workspace manifest files).1 ≡ read blob files
restore_artifacts_keeps_example =
    restore_artifacts_keeps digest package_dir workspace manifest blob files outside

planned :
    plan_restore digest package_dir workspace artifact files
    ≡ ok (copy (str "reports/a.md") (str "required") blob target report)
unfolding plan_restore plan_blob locate choose safe_package_relative_path
    safe_workspace_relative_path path lookup get_or get_item file_sha256_and_size open_read read
    same_path stream_file stream stream_chunk_size take drop sha256_bytes ◌<>◌ contains
planned = refl

restore_artifact_copies_example :
    Sited package_dir artifact (str "reports/a.md") blob report
    × (target ≡ child workspace report)
    × ((bytes : List ℕ) × (read blob files ≡ some bytes)
        × ((restore_artifact digest package_dir workspace artifact files).0
            ≡ ok (
                restored
                  (str "reports/a.md")
                  report
                  (str "required")
                  (sha256_bytes digest bytes)
                  (length bytes)))
        × (read target (restore_artifact digest package_dir workspace artifact files).1
            ≡ some bytes)
        × (get_item artifact "sha256" ≡ ok (str (sha256_bytes digest bytes))))
restore_artifact_copies_example =
    restore_artifact_copies digest package_dir workspace artifact (str "reports/a.md")
      (str "required") blob target report files planned target_new

abbrev inner : Value
inner = dict (
    ("path", str "artifacts/a.md")
    ∷ ("sha256", str "sha256:9f86")
    ∷ ("blob_path", str "artifacts/a.md")
    ∷ [])

abbrev inside : PurePath
inside = record { absolute = false; parts = "artifacts" ∷ "a.md" ∷ [] }

-- the workspace is the package itself
onto_itself :
    plan_restore digest package_dir package_dir inner files
    ≡ ok (copy (str "artifacts/a.md") (str "required") blob blob inside)
unfolding plan_restore plan_blob locate choose safe_package_relative_path
    safe_workspace_relative_path path lookup get_or get_item file_sha256_and_size open_read read
    same_path stream_file stream stream_chunk_size take drop sha256_bytes ◌<>◌ contains
onto_itself = refl

restore_artifact_empties_example :
    ((restore_artifact digest package_dir package_dir inner files).0
      ≡ ok (restored (str "artifacts/a.md") inside (str "required") (sha256_bytes digest []) 0))
    × (read blob (restore_artifact digest package_dir package_dir inner files).1 ≡ some [])
restore_artifact_empties_example =
    restore_artifact_empties digest package_dir package_dir inner (str "artifacts/a.md")
      (str "required") blob inside files onto_itself
