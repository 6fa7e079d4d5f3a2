-- ===== src/Artifacts/Outcome.antt =====
-- Restoration of a package: where it writes, and what it leaves there.
use permeant_os.Prelude.{ℕ, String, ◌≡◌, ◌≢◌, refl, ap, ◌∙◌, List, ◌∷◌, inl, inr, some, [], length}
use permeant_os.Py.Value.{Value, str}
use permeant_os.Py.Result.{Result, ok, raise, ◌>>=◌, ok-injective, Result-cases}
use permeant_os.Py.Dict.{get_item}
use permeant_os.Py.Path.{PurePath, child}
use permeant_os.Files.{Files, read}
use permeant_os.Files.Streaming.{copy_file_streaming_with_hash_lem, copy_file_onto_itself}
use permeant_os.Artifacts.{
  copy, plan_restore, run_plan, finish, Restored, restore_artifact, sha256_bytes, collect, and_then,
  restore_all, restore_artifacts, restored, iter,
}
use permeant_os.Artifacts.Restore.{Below, Sited, plan_restore-IsPlan, restore_artifact_keeps}

finish-ok :
    (report : String → ℕ → Restored) (r : Result (String × ℕ) × Files) (hash : String) (size : ℕ)
    → r.0 ≡ ok (hash, size)
    → ((finish report r).0 ≡ ok (report hash size)) × ((finish report r).1 ≡ r.1)
unfolding finish
finish-ok report (raise e, fs) hash size h = cc h
finish-ok report (ok (x, n), fs) hash size h =
    (ap (λ (s : String × ℕ). ok (report s.0 s.1)) (ok-injective _ _ h), refl)

module _ (hexdigest : List ℕ → String) (package_dir workspace : PurePath) where
  collect_files :
      (r : Restored) (rest : Result (List Restored) × Files) → (collect r rest).1 ≡ rest.1
  unfolding collect
  collect_files r (raise e, fs) = refl
  collect_files r (ok rs, fs) = refl

  and_then_keeps :
      (r : Result Restored) (q : PurePath) (fs : Files) (rest : Result (List Restored) × Files)
      → read q rest.1 ≡ read q fs
      → read q (and_then r fs rest).1 ≡ read q fs
  unfolding and_then
  and_then_keeps (raise e) q fs rest h = refl
  and_then_keeps (ok r) q fs rest h = ap (read q) (collect_files r rest) ∙ h

  restore_all_keeps :
      (artifacts : List Value) (q : PurePath) (fs : Files)
      → ¬ (Below workspace q)
      → read q (restore_all hexdigest package_dir workspace artifacts fs).1 ≡ read q fs
  unfolding restore_all
  restore_all_keeps [] q fs n = refl
  restore_all_keeps (a ∷ artifacts) q fs n =
      and_then_keeps (restore_artifact hexdigest package_dir workspace a fs).0 q _ _
        (restore_all_keeps artifacts q _ n)
      ∙ restore_artifact_keeps hexdigest package_dir workspace a q fs n

  -- Restoring a package, whether it returns or raises at some artifact, changes no file whose path is
  -- not the workspace followed by parts none of which is `..`.
  pub restore_artifacts_keeps :
      (manifest : Value) (q : PurePath) (fs : Files)
      → ¬ (Below workspace q)
      → read q (restore_artifacts hexdigest package_dir workspace manifest fs).1 ≡ read q fs
  unfolding restore_artifacts
  restore_artifacts_keeps manifest q fs n =
      elim (Result-cases (do artifacts ← get_item manifest "artifacts"; iter artifacts)) [
        | inr (e, h) ↦ rw h
        | inl (artifacts, h) ↦ rw h (restore_all_keeps artifacts q fs n)
      ]

  -- Where an artifact is to be copied onto another path than its blob, the source is the blob that the
  -- artifact's entry names below the package, and the target the path that it names below the
  -- workspace; its restoration returns a report with the digest and the size of the blob's content,
  -- the target then holds that content, and the digest is the one that the manifest names.
  pub restore_artifact_copies :
      (artifact p policy : Value) (source target relative : PurePath) (fs : Files)
      → plan_restore hexdigest package_dir workspace artifact fs
        ≡ ok (copy p policy source target relative)
      → target ≢ source
      → Sited package_dir artifact p source relative
        × (target ≡ child workspace relative)
        × ((bytes : List ℕ) × (read source fs ≡ some bytes)
            × ((restore_artifact hexdigest package_dir workspace artifact fs).0
                ≡ ok (restored p relative policy (sha256_bytes hexdigest bytes) (length bytes)))
            × (read target (restore_artifact hexdigest package_dir workspace artifact fs).1
                ≡ some bytes)
            × (get_item artifact "sha256" ≡ ok (str (sha256_bytes hexdigest bytes))))
  unfolding restore_artifact run_plan
  restore_artifact_copies artifact p policy source target relative fs h n =
      let (_, placed, sited, (bytes, found, named)) =
        plan_restore-IsPlan hexdigest package_dir workspace artifact fs _ h in
      let (r, kept, _) =
        copy_file_streaming_with_hash_lem hexdigest source target fs bytes found n in
      let (reported, files) = finish-ok (restored p relative policy) _ _ _ r in
      (sited, placed, (bytes, found, rw h reported, rw h (ap (read target) files ∙ kept), named))

  -- Where the target is the blob itself, the restoration empties it, and still reports the artifact
  -- as restored, with the digest of no bytes.
  pub restore_artifact_empties :
      (artifact p policy : Value) (source relative : PurePath) (fs : Files)
      → plan_restore hexdigest package_dir workspace artifact fs
        ≡ ok (copy p policy source source relative)
      → ((restore_artifact hexdigest package_dir workspace artifact fs).0
          ≡ ok (restored p relative policy (sha256_bytes hexdigest []) 0))
        × (read source (restore_artifact hexdigest package_dir workspace artifact fs).1 ≡ some [])
  unfolding restore_artifact run_plan
  restore_artifact_empties artifact p policy source relative fs h =
      let (_, _, _, (bytes, found, named)) =
        plan_restore-IsPlan hexdigest package_dir workspace artifact fs _ h in
      let (r, kept) = copy_file_onto_itself hexdigest source fs bytes found in
      let (reported, files) = finish-ok (restored p relative policy) _ _ _ r in
      rw h (reported, ap (read source) files ∙ kept)
