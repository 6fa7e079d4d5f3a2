-- ===== src/ReturnHome/Effects.antt =====
-- What `return_home_after_target_resume` writes, and when.
use permeant_os.Prelude.{
  ℕ, String, ◌≡◌, ◌≢◌, ◌∙◌, refl, Bool, List, [], ◌∷◌, contains, Option, some, subst, inl, inr,
}
use mathlib.Core.List.{append_assoc}
use permeant_os.Py.Value.{Value}
use permeant_os.Py.Result.{Result, ok, raise, Result-cases, >>=-eq-ok}
use permeant_os.Py.Dict.{get_item}
use permeant_os.Py.Path.{PurePath, child, path}
use permeant_os.Constants.{runtime_id}
use permeant_os.Embeddings.{Floats}
use permeant_os.Files.{write_json, Files, read}
use permeant_os.Files.Laws.{read-write_ne}
use permeant_os.Artifacts.Restore.{Below}
use permeant_os.Import.Effects.{import_session_writes}
use permeant_os.Import.{Continued, ImportReport, import_session, read_json}
use permeant_os.ReturnHome.Checks.{Evidence}
use permeant_os.ReturnHome.Proven.{Proven}
use permeant_os.ReturnHome.Sound.{check_evidence_sound}
use permeant_os.ReturnHome.Work.{continuation_path}
use permeant_os.ReturnHome.{
  Returned, returned_graph_path, roundtrip_report_path, origin_workspace, write_roundtrip_report,
  conclude_return, read_evidence, write_continuation, return_checked, return_imported,
  return_home_after_target_resume,
}

module _ (workspace : PurePath) where
  -- the three files that a return home may write
  abbrev pub continuation_file : PurePath
  continuation_file = child workspace (path continuation_path)

  abbrev pub returned_graph : PurePath
  returned_graph = child workspace (path returned_graph_path)

  abbrev pub roundtrip_report_file : PurePath
  roundtrip_report_file = child workspace (path roundtrip_report_path)

  abbrev Elsewhere : PurePath → Type 0
  Elsewhere q = (continuation_file ≢ q) × (returned_graph ≢ q) × (roundtrip_report_file ≢ q)

  not_Below-Elsewhere : (q : PurePath) → ¬ (Below workspace q) → Elsewhere q
  unfolding path contains
  not_Below-Elsewhere q n = (
    λ e. n (
        subst (Below workspace) e
          ("reports" ∷ "roundtrip" ∷ "origin-continuation.md" ∷ [], refl, refl, refl)),
    λ e. n (
        subst (Below workspace) e
          ("reports" ∷ "roundtrip" ∷ "returned-home-graph.json" ∷ [], refl, refl, refl)),
    λ e. n (
        subst (Below workspace) e
          ("reports" ∷ "roundtrip" ∷ "roundtrip-report.json" ∷ [], refl, refl, refl)),
  )

  -- What the import writes lies below the workspace too.
  Below-origin_import :
      (q : PurePath) → Below (child workspace (path "origin-import")) q → Below workspace q
  unfolding path contains
  Below-origin_import q (rest, e, c, n) = ("origin-import" ∷ rest, rw append_assoc at e, c, refl)

  module _ (hexdigest : List ℕ → String) where
    write_roundtrip_report_keeps :
        (e : Evidence) (r : Returned) (c : Continued) (post : Result Value) (q : PurePath)
        (fs : Files)
        → roundtrip_report_file ≢ q
        → read q (write_roundtrip_report hexdigest workspace e r c post fs).1 ≡ read q fs
    unfolding write_roundtrip_report write_json
    write_roundtrip_report_keeps e r c (raise x) q fs n = refl
    write_roundtrip_report_keeps e r c (ok post) q fs n =
        read-write_ne roundtrip_report_file q _ fs n

    conclude_return_keeps :
        (e : Evidence) (c : Continued) (r : Result Returned × Files) (q : PurePath)
        → Elsewhere q
        → read q (conclude_return hexdigest workspace e c r).1 ≡ read q r.1
    unfolding conclude_return write_json
    conclude_return_keeps e c (raise x, fs) q n = refl
    conclude_return_keeps e c (ok r, fs) q n =
        write_roundtrip_report_keeps e r c (get_item r.graph "graph_hash") q _ n.2
        ∙ read-write_ne returned_graph q _ fs n.1

    module _ (floats : Floats) (show : Value → String) where
      write_continuation_keeps :
          (e : Evidence) (proof : Result Value) (q : PurePath) (fs : Files)
          → Elsewhere q
          → read q (write_continuation hexdigest floats show workspace e proof fs).1 ≡ read q fs
      unfolding write_continuation
      write_continuation_keeps e (raise x) q fs n = refl
      write_continuation_keeps e (ok proof) q fs n = read-write_ne continuation_file q _ fs n.0

      return_checked_keeps :
          (c : Continued) (r : Result Evidence) (q : PurePath) (fs : Files)
          → Elsewhere q
          → read q (return_checked hexdigest floats show workspace c r fs).1 ≡ read q fs
      unfolding return_checked
      return_checked_keeps c (raise x) q fs n = refl
      return_checked_keeps c (ok e) q fs n =
          conclude_return_keeps e c _ q n
          ∙ write_continuation_keeps e (get_item e.report "proof_hash") q fs n

module _ (hexdigest : List ℕ → String) (floats : Floats) (show : Value → String)
    (loads : List ℕ → Result Value) (parse_int : Value → Result Value)
    (package_dir graph_path report_path : PurePath) (artifact_path : Option PurePath) where
  -- The files hold a manifest, and a graph and a report of the target that are proven.
  pub record TargetProven (fs : Files) (e : Evidence) : Type 0 where
    pub manifest : Value
    pub manifest_read : read_json loads (child package_dir (path "manifest.json")) fs ≡ ok manifest
    pub graph : Value
    pub graph_read : read_json loads graph_path fs ≡ ok graph
    pub report : Value
    pub report_read : read_json loads report_path fs ≡ ok report
    pub proven : Proven hexdigest parse_int artifact_path manifest graph report fs e

  pub read_evidence_sound :
      (fs : Files) (e : Evidence)
      → read_evidence hexdigest loads parse_int package_dir graph_path report_path artifact_path fs
        ≡ ok e
      → TargetProven fs e
  unfolding read_evidence
  read_evidence_sound fs e h =
      let (m, e1, h1) =
        >>=-eq-ok (read_json loads (child package_dir (path "manifest.json")) fs) _ h in
      let (g, e2, h2) = >>=-eq-ok (read_json loads graph_path fs) _ h1 in
      let (r, e3, h3) = >>=-eq-ok (read_json loads report_path fs) _ h2 in
      record {
        manifest = m;
        manifest_read = e1;
        graph = g;
        graph_read = e2;
        report = r;
        report_read = e3;
        proven = check_evidence_sound hexdigest parse_int artifact_path m g r fs e h3;
      }

  return_imported_keeps :
      (workspace q : PurePath) (r : Result ImportReport × Files)
      → Elsewhere workspace q
      → read q
          (return_imported hexdigest floats show loads parse_int package_dir workspace graph_path
            report_path artifact_path r).1
        ≡ read q r.1
  unfolding return_imported
  return_imported_keeps workspace q (raise x, fs) n = refl
  return_imported_keeps workspace q (ok i, fs) n =
      return_checked_keeps workspace hexdigest floats show i.continued
        (read_evidence hexdigest loads parse_int package_dir graph_path report_path artifact_path
          fs)
        q fs n

  return_imported_gated :
      (workspace q : PurePath) (r : Result ImportReport × Files)
      → read q
          (return_imported hexdigest floats show loads parse_int package_dir workspace graph_path
            report_path artifact_path r).1
        ≢ read q r.1
      → (i : ImportReport) × (r.0 ≡ ok i) × ((e : Evidence) × TargetProven r.1 e)
  unfolding return_imported return_checked
  return_imported_gated workspace q (raise x, fs) changed = absurd (changed refl)
  return_imported_gated workspace q (ok i, fs) changed =
      elim (Result-cases (
        read_evidence hexdigest loads parse_int package_dir graph_path report_path artifact_path
          fs)) [
            | inl (e, k) ↦ (i, refl, (e, read_evidence_sound fs e k))
            | inr (x, k) ↦ absurd (changed (rw k refl))
          ]

  -- Whatever its outcome, a return home changes no file that is not the workspace followed by parts
  -- none of which is `..`. Of what its import has left it changes a file only if the import returned a
  -- report and the target's report, graph and artifact are proven.
  pub return_home_writes :
      (above : String → String → Bool) (q : PurePath) (workspace_dir : Option PurePath) (fs : Files)
      → (¬ (Below (origin_workspace package_dir workspace_dir) q)
          → read q
              (return_home_after_target_resume hexdigest floats show loads parse_int above
                package_dir graph_path report_path workspace_dir artifact_path fs).1
            ≡ read q fs)
        × (read q
                (return_home_after_target_resume hexdigest floats show loads parse_int above
                  package_dir graph_path report_path workspace_dir artifact_path fs).1
              ≢ read q
                  (import_session loads floats above hexdigest show package_dir
                    (some
                      (child (origin_workspace package_dir workspace_dir) (path "origin-import")))
                    runtime_id
                    fs).1
            → (i : ImportReport) × ((import_session loads floats above hexdigest show package_dir
                  (some (child (origin_workspace package_dir workspace_dir) (path "origin-import")))
                  runtime_id
                  fs).0
                ≡ ok i)
              × ((e : Evidence) × TargetProven
                    (import_session loads floats above hexdigest show package_dir
                      (some
                        (child (origin_workspace package_dir workspace_dir) (path "origin-import")))
                      runtime_id
                      fs).1
                    e))
  unfolding return_home_after_target_resume
  return_home_writes above q workspace_dir fs =
      let workspace : PurePath = origin_workspace package_dir workspace_dir in
      let inner : PurePath = child workspace (path "origin-import") in
      (
        λ n.
            return_imported_keeps workspace q _ (not_Below-Elsewhere workspace q n)
            ∙ (import_session_writes loads floats above hexdigest show package_dir q (some inner)
                  runtime_id fs).0
                (λ b. n (Below-origin_import workspace q b)),
        return_imported_gated workspace q (
            import_session loads floats above hexdigest show package_dir (some inner) runtime_id
              fs),
      )
