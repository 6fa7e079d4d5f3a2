-- ===== src/Import/Effects.antt =====
-- What `import_session` writes, and what it guarantees when it returns.
use permeant_os.Prelude.{ℕ, String, ◌≡◌, ◌≢◌, refl, List, Option, inl, inr, sym, subst}
use permeant_os.Py.Value.{Value}
use permeant_os.Py.Result.{Result, ok, >>=-eq-ok, Result-cases}
use permeant_os.Py.Path.{PurePath}
use permeant_os.Files.{Files, read}
use permeant_os.Artifacts.{Restored, restore_artifacts}
use permeant_os.Artifacts.Restore.{Below}
use permeant_os.Artifacts.Outcome.{restore_artifacts_keeps}
use permeant_os.Embeddings.{Floats}
use permeant_os.Import.{
  Checked, ImportReport, check_package, check_continuation, conclude, import_session, workspace_or,
  Bool,
}
use permeant_os.Import.Reported.{Reported, build_report-Reported}
use permeant_os.Import.Accepted.{Trusted, Resumable, check_package_sound, check_continuation_sound}

module _ (loads : List ℕ → Result Value) (floats : Floats) (above : String → String → Bool)
    (hexdigest : List ℕ → String) (show : Value → String) where
  -- Whatever its outcome, an import changes no file that is not the workspace followed by parts none
  -- of which is `..`; and it changes a file only if the package has passed every check of the first
  -- stage, that of the path at which the graph was read included.
  pub import_session_writes :
      (package_dir q : PurePath) (workspace_dir : Option PurePath) (target : String) (fs : Files)
      → (¬ (Below (workspace_or package_dir workspace_dir) q)
          → read q
              (import_session loads floats above hexdigest show package_dir workspace_dir target
                fs).1
            ≡ read q fs)
        × (read q
                (import_session loads floats above hexdigest show package_dir workspace_dir target
                  fs).1
              ≢ read q fs
            → (c : Checked) × Trusted loads floats above hexdigest show package_dir target fs c)
  unfolding import_session
  import_session_writes package_dir q workspace_dir target fs =
      elim (Result-cases (check_package loads floats above hexdigest show package_dir target fs)) [
        | inr (e, h) ↦ rw h (λ n. refl, λ changed. absurd (changed refl))
        | inl (c, h) ↦ rw h (
          restore_artifacts_keeps hexdigest package_dir (workspace_or package_dir workspace_dir)
              c.manifest q fs,
          λ changed.
              (c, check_package_sound loads floats above hexdigest show package_dir target fs c h),
        )
      ]

  conclude_sound :
      (c : Checked) (workspace : PurePath) (restored : Result (List Restored)) (r : ImportReport)
      → conclude loads floats above hexdigest show c workspace restored ≡ ok r
      → Resumable loads floats above hexdigest show c r.continued
        × ((l : List Restored) × (restored ≡ ok l) × Reported c workspace l r.continued r)
  unfolding conclude
  conclude_sound c workspace restored r h =
      let (l, e1, h1) = >>=-eq-ok restored _ h in
      let (k, e, h2) =
        >>=-eq-ok (check_continuation loads floats above hexdigest show c.graph c.manifest) _ h1 in
      let reported = build_report-Reported c workspace l k r h2 in
      let same : k ≡ r.continued = sym reported.continued in
      (
        subst (Resumable loads floats above hexdigest show c) same
            (check_continuation_sound loads floats above hexdigest show c k e),
        (l, e1, subst (λ x. Reported c workspace l x r) same reported),
      )

  -- the workspace that a report names is the one that was asked for, or the default
  pub import_session-workspace :
      (package_dir : PurePath) (workspace_dir : Option PurePath) (target : String) (fs : Files)
      (r : ImportReport)
      → (import_session loads floats above hexdigest show package_dir workspace_dir target fs).0
        ≡ ok r
      → r.restored_workspace ≡ workspace_or package_dir workspace_dir
  unfolding import_session
  import_session-workspace package_dir workspace_dir target fs r h =
      elim (Result-cases (check_package loads floats above hexdigest show package_dir target fs)) [
        | inr (e, k) ↦ cc (rw k at h)
        | inl (c, k) ↦
            let (_, (_, _, reported)) = conclude_sound c _ _ r (rw k at h) in
            reported.workspace_named
      ]

  -- If an import returns a report, then the package has passed every check of the first stage, the
  -- artifacts were restored, and the report gives what the checks and the restoration returned,
  -- the graph's hash, and for the path of each artifact of the manifest a digest, each of them
  -- that of an artifact with that path, and of the last one where several have the same text as
  -- path; its hashes are those of the prompt that the graph holds, its next response follows from
  -- that prompt and the digest of the manifest's first artifact, and both are those that the
  -- manifest names.
  pub import_session_sound :
      (package_dir : PurePath) (workspace_dir : Option PurePath) (target : String) (fs : Files)
      (r : ImportReport)
      → (import_session loads floats above hexdigest show package_dir workspace_dir target fs).0
        ≡ ok r
      → Trusted loads floats above hexdigest show package_dir target fs r.checked
        × Resumable loads floats above hexdigest show r.checked r.continued
        × ((l : List Restored) × ((restore_artifacts hexdigest package_dir
                (workspace_or package_dir workspace_dir)
                r.checked.manifest
                fs).0
              ≡ ok l)
            × Reported r.checked (workspace_or package_dir workspace_dir) l r.continued r)
  unfolding import_session
  import_session_sound package_dir workspace_dir target fs r h =
      elim (Result-cases (check_package loads floats above hexdigest show package_dir target fs)) [
        | inr (e, k) ↦ cc (rw k at h)
        | inl (c, k) ↦
            let (resumable, (l, restored, reported)) = conclude_sound c _ _ r (rw k at h) in
            let same : c ≡ r.checked = sym reported.checked in
            (
              subst (Trusted loads floats above hexdigest show package_dir target fs) same
                  (check_package_sound loads floats above hexdigest show package_dir target fs c k),
              subst (λ x. Resumable loads floats above hexdigest show x r.continued) same resumable,
              (
                l,
                subst
                    (λ (x : Checked).
                      (restore_artifacts hexdigest package_dir
                        (workspace_or package_dir workspace_dir) x.manifest fs).0
                      ≡ ok l)
                    same restored,
                subst (λ x. Reported x (workspace_or package_dir workspace_dir) l r.continued r)
                    same reported,
              ),
            )
      ]
