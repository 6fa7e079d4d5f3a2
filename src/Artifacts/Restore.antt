-- ===== src/Artifacts/Restore.antt =====
-- Restoration of one artifact: what it plans, and where it writes.
use permeant_os.Prelude.{
  ℕ, String, ◌≡◌, ◌≢◌, refl, ap, sym, ◌∙◌, false, List, ◌∷◌, ◌++◌, contains, Bool-cases, inl, inr,
  some, subst,
}
use mathlib.Core.List.{append_assoc}
use permeant_os.Py.Value.{Value, str, is_str, is_str_iff}
use permeant_os.Py.Result.{Result, ok, raise, >>=-eq-ok, ok-injective, Result-cases}
use permeant_os.Py.Dict.{get, get_or, get_item}
use permeant_os.Py.Path.{PurePath, child}
use permeant_os.Paths.{no_parts, safe_workspace_relative_path, safe_package_relative_path}
use permeant_os.Paths.Safe.{IsConfined, safe_relative_path_iff}
use permeant_os.Files.{Files, read, file_sha256_and_size, copy_file_streaming_with_hash}
use permeant_os.Files.Streaming.{copy_file_keeps, file_sha256_and_size_inv}
use permeant_os.Artifacts.{
  Plan, external, quarantine, copy, plan_blob, choose, locate, Located, quarantine_dir,
  plan_restore, run_plan, finish, Restored, restore_artifact, sha256_bytes,
}

-- A path below the workspace, by parts none of which is `..`.
abbrev pub Below : PurePath → PurePath → Type 0
Below workspace q =
    (rest : List String) × (q
      ≡ record { absolute = workspace.absolute; parts = workspace.parts ++ rest })
    × (contains rest ".." ≡ false)
    × (no_parts rest ≡ false)

child-Below :
    (workspace relative : PurePath)
    → IsConfined relative
    → Below workspace (child workspace relative)
child-Below workspace relative c = (relative.parts, rw c.relative, c.no_parent, c.nonempty)

-- The quarantine lies below the workspace.
quarantine-Below :
    (workspace relative : PurePath)
    → IsConfined relative
    → Below workspace (child (child workspace quarantine_dir) relative)
unfolding contains
quarantine-Below workspace relative c =
    (".permeantos-quarantine" ∷ relative.parts, rw (c.relative, append_assoc), c.no_parent, refl)

locate-IsConfined :
    (package_dir : PurePath) (artifact : Value) (l : Located)
    → locate package_dir artifact ≡ ok l
    → IsConfined l.relative
unfolding locate safe_workspace_relative_path
locate-IsConfined package_dir artifact l h =
    let (b, _, h1) = >>=-eq-ok (get_item artifact "blob_path") _ h in
    let (r, _, h2) = >>=-eq-ok (safe_package_relative_path b) _ h1 in
    let (p, _, h3) = >>=-eq-ok (get_item artifact "path") _ h2 in
    let (t, _, h4) = >>=-eq-ok (get_or artifact "target_path" p) _ h3 in
    let (rel, safe, h5) = >>=-eq-ok (safe_workspace_relative_path t) _ h4 in
    subst IsConfined (ap (λ (x : Located). x.relative) (ok-injective _ l h5))
      ((safe_relative_path_iff t "artifact restore path" rel).0 safe).3

-- Where an artifact's blob and its restored file are, by the fields of its entry.
pub record Sited (package_dir : PurePath) (artifact p : Value) (source relative : PurePath)
    : Type 0 where
  pub blob_path : Value
  pub blob_field : get_item artifact "blob_path" ≡ ok blob_path
  pub blob_relative : PurePath
  pub blob_safe : safe_package_relative_path blob_path ≡ ok blob_relative
  pub source_place : source ≡ child package_dir blob_relative
  pub path_field : get_item artifact "path" ≡ ok p
  pub target_path : Value
  pub target_field : get_or artifact "target_path" p ≡ ok target_path
  pub target_safe : safe_workspace_relative_path target_path ≡ ok relative

locate-Sited :
    (package_dir : PurePath) (artifact : Value) (l : Located)
    → locate package_dir artifact ≡ ok l
    → Sited package_dir artifact l.path l.source l.relative
unfolding locate
locate-Sited package_dir artifact l h =
    let (b, e1, h1) = >>=-eq-ok (get_item artifact "blob_path") _ h in
    let (r, e2, h2) = >>=-eq-ok (safe_package_relative_path b) _ h1 in
    let (p, e3, h3) = >>=-eq-ok (get_item artifact "path") _ h2 in
    let (t, e4, h4) = >>=-eq-ok (get_or artifact "target_path" p) _ h3 in
    let (rel, e5, h5) = >>=-eq-ok (safe_workspace_relative_path t) _ h4 in
    subst (λ (x : Located). Sited package_dir artifact x.path x.source x.relative)
      (ok-injective _ l h5)
      (record {
        blob_path = b;
        blob_field = e1;
        blob_relative = r;
        blob_safe = e2;
        source_place = refl;
        path_field = e3;
        target_path = t;
        target_field = e4;
        target_safe = e5;
      })

finish_keeps :
    (report : String → ℕ → Restored) (q : PurePath) (r : Result (String × ℕ) × Files)
    → read q (finish report r).1 ≡ read q r.1
unfolding finish
finish_keeps report q (raise e, fs) = refl
finish_keeps report q (ok (hash, size), fs) = refl

module _ (hexdigest : List ℕ → String) (package_dir workspace : PurePath) where
  -- What a plan says of the files that it was made from.
  abbrev pub IsPlan : Value → Files → Plan → Type 0
  IsPlan artifact fs (external p sha) = Unit
  IsPlan artifact fs (quarantine p policy source target) =
      Below workspace target
      × (policy ≡ str "quarantine_on_mismatch")
      × ((bytes : List ℕ) × (read source fs ≡ some bytes)
          × (get_item artifact "sha256" ≢ ok (str (sha256_bytes hexdigest bytes))))
  IsPlan artifact fs (copy p policy source target relative) =
      Below workspace target
      × (target ≡ child workspace relative)
      × Sited package_dir artifact p source relative
      × ((bytes : List ℕ) × (read source fs ≡ some bytes)
          × (get_item artifact "sha256" ≡ ok (str (sha256_bytes hexdigest bytes))))

  choose-IsPlan :
      (artifact policy expected : Value) (l : Located) (bytes : List ℕ) (fs : Files) (plan : Plan)
      → IsConfined l.relative
      → Sited package_dir artifact l.path l.source l.relative
      → read l.source fs ≡ some bytes
      → get_item artifact "sha256" ≡ ok expected
      → choose workspace l policy expected (sha256_bytes hexdigest bytes) ≡ ok plan
      → IsPlan artifact fs plan
  unfolding choose
  choose-IsPlan artifact policy expected l bytes fs plan c sited r e h =
      elim (Bool-cases (is_str expected (sha256_bytes hexdigest bytes))) [
        | inl same ↦ subst (IsPlan artifact fs) (ok-injective _ plan (rw same at h)) (
          child-Below workspace l.relative c,
          refl,
          sited,
          (bytes, r, e ∙ ap ok ((is_str_iff expected _).0 same)),
        )
        | inr other ↦ elim (Bool-cases (is_str policy "quarantine_on_mismatch")) [
          | inl q ↦ subst (IsPlan artifact fs) (ok-injective _ plan (rw (other, q) at h)) (
            quarantine-Below workspace l.relative c,
            (is_str_iff policy _).0 q,
            (bytes, r, λ x. cc (other, (is_str_iff expected _).1 (ok-injective _ _ (sym e ∙ x)))),
          )
          | inr n ↦ cc (rw (other, n) at h)
        ]
      ]

  plan_blob-IsPlan :
      (artifact policy : Value) (fs : Files) (plan : Plan)
      → plan_blob hexdigest package_dir workspace artifact policy fs ≡ ok plan
      → IsPlan artifact fs plan
  unfolding plan_blob
  plan_blob-IsPlan artifact policy fs plan h =
      let (l, e1, h1) = >>=-eq-ok (locate package_dir artifact) _ h in
      let (r, e2, h2) = >>=-eq-ok (file_sha256_and_size hexdigest l.source fs) _ h1 in
      let (x, e3, h3) = >>=-eq-ok (get_item artifact "sha256") _ h2 in
      let (bytes, found, q) = file_sha256_and_size_inv hexdigest l.source fs r e2 in
      choose-IsPlan artifact policy x l bytes fs plan (locate-IsConfined package_dir artifact l e1)
        (locate-Sited package_dir artifact l e1) found e3
        (subst (λ (s : String × ℕ). choose workspace l policy x s.0 ≡ ok plan) q h3)

  pub plan_restore-IsPlan :
      (artifact : Value) (fs : Files) (plan : Plan)
      → plan_restore hexdigest package_dir workspace artifact fs ≡ ok plan
      → IsPlan artifact fs plan
  unfolding plan_restore
  plan_restore-IsPlan artifact fs plan h =
      let (policy, _, h1) = >>=-eq-ok (get_or artifact "restore_policy" (str "required")) _ h in
      elim (Bool-cases (is_str policy "external_rebind")) [
        | inr n ↦ plan_blob-IsPlan artifact policy fs plan (rw n at h1)
        | inl e ↦
            let (p, _, h2) = >>=-eq-ok (get_item artifact "path") _ (rw e at h1) in
            let (sha, _, h3) = >>=-eq-ok (get artifact "sha256") _ h2 in
            subst (IsPlan artifact fs) (ok-injective (external p sha) plan h3) tt
      ]

  run_plan_keeps :
      (artifact : Value) (plan : Plan) (q : PurePath) (fs : Files)
      → IsPlan artifact fs plan
      → ¬ (Below workspace q)
      → read q (run_plan hexdigest plan fs).1 ≡ read q fs
  unfolding run_plan
  run_plan_keeps artifact (external p sha) q fs i n = refl
  run_plan_keeps artifact (quarantine p policy source target) q fs i n =
      finish_keeps _ q (copy_file_streaming_with_hash hexdigest source target fs)
      ∙ copy_file_keeps hexdigest source target q fs (λ e. n (subst (Below workspace) e i.0))
  run_plan_keeps artifact (copy p policy source target relative) q fs i n =
      finish_keeps _ q (copy_file_streaming_with_hash hexdigest source target fs)
      ∙ copy_file_keeps hexdigest source target q fs (λ e. n (subst (Below workspace) e i.0))

  -- Restoring one artifact, whether it returns or raises, changes no file that is not below the
  -- workspace.
  pub restore_artifact_keeps :
      (artifact : Value) (q : PurePath) (fs : Files)
      → ¬ (Below workspace q)
      → read q (restore_artifact hexdigest package_dir workspace artifact fs).1 ≡ read q fs
  unfolding restore_artifact
  restore_artifact_keeps artifact q fs n =
      elim (Result-cases (plan_restore hexdigest package_dir workspace artifact fs)) [
        | inr (e, h) ↦ rw h
        | inl (plan, h) ↦
            rw h (run_plan_keeps artifact plan q fs (plan_restore-IsPlan artifact fs plan h) n)
      ]
