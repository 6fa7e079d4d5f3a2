-- ===== src/Resume/Effects.antt =====
-- What `resume_imported_agent` writes, and the proof that its report carries.
use permeant_os.Prelude.{
  ℕ, String, ◌≡◌, ◌≢◌, ◌∙◌, sym, refl, Bool, true, false, List, [], ◌∷◌, contains, Option, subst,
}
use permeant_os.Py.Value.{Value, obj, is_str_self}
use permeant_os.Py.Result.{Result, ok, raise}
use permeant_os.Py.Dict.{get_item, get_or, lookup-insert, erase-insert}
use permeant_os.Py.Path.{PurePath, child, path}
use permeant_os.Embeddings.{Floats}
use permeant_os.Files.{write_json, Files, read}
use permeant_os.Files.Laws.{read-write_ne}
use permeant_os.Artifacts.Restore.{Below}
use permeant_os.Import.Effects.{import_session-workspace, import_session_writes}
use permeant_os.Import.{Continued, ImportReport, workspace_or, import_session}
use permeant_os.Resume.Work.{announcement_path, approve_publish_tool, finish_graph}
use permeant_os.Resume.{
  Activity, Resuming, resumed_graph_path, resume_report_path, resume_report,
  verify_resume_report_proof, report_hash, write_report, write_resumed, conclude_resume,
  write_announcement, publish, resume_prepared, resume_imported, resume_imported_agent, prepare,
  runtime_id,
}

-- The report that a resume writes passes the check that the return home makes of it.
pub verify_resume_report_proof-resume_report :
    (hexdigest : List ℕ → String) (a : Activity) (approved : Bool) (pre post : Value)
    (continued : Continued)
    → verify_resume_report_proof hexdigest
        (obj (resume_report hexdigest a approved pre post continued))
      ≡ ok tt
unfolding verify_resume_report_proof report_hash resume_report get_or
verify_resume_report_proof-resume_report hexdigest a approved pre post continued =
    rw (erase-insert, lookup-insert) (rw is_str_self)

module _ (workspace : PurePath) where
  -- the three files that a resume may write
  abbrev pub resumed_graph : PurePath
  resumed_graph = child workspace (path resumed_graph_path)

  abbrev pub report_file : PurePath
  report_file = child workspace (path resume_report_path)

  abbrev pub announcement : PurePath
  announcement = child workspace (path announcement_path)

  written-Below :
      Below workspace resumed_graph × Below workspace report_file × Below workspace announcement
  unfolding path contains
  written-Below = (
    ("reports" ∷ "resume" ∷ "resumed-graph.json" ∷ [], refl, refl, refl),
    ("reports" ∷ "resume" ∷ "resume-report.json" ∷ [], refl, refl, refl),
    ("reports" ∷ "publish" ∷ "announcement.md" ∷ [], refl, refl, refl),
  )

  module _ (hexdigest : List ℕ → String) where
    write_report_keeps :
        (a : Activity) (approved : Bool) (pre : Value) (c : Continued) (post : Result Value)
        (q : PurePath) (fs : Files)
        → report_file ≢ q
        → read q (write_report hexdigest workspace a approved pre c post fs).1 ≡ read q fs
    unfolding write_report write_json
    write_report_keeps a approved pre c (raise e) q fs n = refl
    write_report_keeps a approved pre c (ok post) q fs n = read-write_ne report_file q _ fs n

    write_resumed_keeps :
        (a : Activity) (approved : Bool) (pre : Value) (c : Continued) (graph : Result Value)
        (q : PurePath) (fs : Files)
        → resumed_graph ≢ q
        → report_file ≢ q
        → read q (write_resumed hexdigest workspace a approved pre c graph fs).1 ≡ read q fs
    unfolding write_resumed write_json
    write_resumed_keeps a approved pre c (raise e) q fs m n = refl
    write_resumed_keeps a approved pre c (ok graph) q fs m n =
        write_report_keeps a approved pre c (get_item graph "graph_hash") q _ n
        ∙ read-write_ne resumed_graph q _ fs m

    conclude_resume_keeps :
        (approved : Bool) (pre : Value) (c : Continued) (r : Result Activity × Files) (q : PurePath)
        → resumed_graph ≢ q
        → report_file ≢ q
        → read q (conclude_resume hexdigest workspace approved pre c r).1 ≡ read q r.1
    unfolding conclude_resume
    conclude_resume_keeps approved pre c (raise e, fs) q m n = refl
    conclude_resume_keeps approved pre c (ok a, fs) q m n =
        write_resumed_keeps a approved pre c (finish_graph hexdigest a.graph pre) q fs m n

    module _ (floats : Floats) (show : Value → String) where
      write_announcement_keeps :
          (c : Continued) (pre : Value) (graph : Result Value) (q : PurePath) (fs : Files)
          → announcement ≢ q
          → read q (write_announcement hexdigest floats show workspace c pre graph fs).1 ≡ read q fs
      unfolding write_announcement
      write_announcement_keeps c pre (raise e) q fs n = refl
      write_announcement_keeps c pre (ok graph) q fs n = read-write_ne announcement q _ fs n

      publish_keeps :
          (approved : Bool) (c : Continued) (pre graph tool : Value) (q : PurePath) (fs : Files)
          → (approved ≡ true → announcement ≢ q)
          → read q (publish hexdigest floats show approved workspace c pre graph tool fs).1
            ≡ read q fs
      unfolding publish
      publish_keeps true c pre graph tool q fs n =
          write_announcement_keeps c pre (approve_publish_tool hexdigest graph tool) q fs (n refl)
      publish_keeps false c pre graph tool q fs n = refl

      resume_prepared_keeps :
          (approved : Bool) (c : Continued) (r : Result Resuming) (q : PurePath) (fs : Files)
          → resumed_graph ≢ q
          → report_file ≢ q
          → (approved ≡ true → announcement ≢ q)
          → read q (resume_prepared hexdigest floats show approved workspace c r fs).1 ≡ read q fs
      unfolding resume_prepared
      resume_prepared_keeps approved c (raise e) q fs m n k = refl
      resume_prepared_keeps approved c (ok r) q fs m n k =
          conclude_resume_keeps approved r.pre_hash c _ q m n
          ∙ publish_keeps approved c r.pre_hash r.graph r.publish_tool q fs k

module _ (hexdigest : List ℕ → String) (floats : Floats) (show : Value → String)
    (loads : List ℕ → Result Value) where
  resume_imported_keeps :
      (package_dir workspace : PurePath) (approved : Bool) (r : Result ImportReport × Files)
      (q : PurePath)
      → ((report : ImportReport) → r.0 ≡ ok report → report.restored_workspace ≡ workspace)
      → resumed_graph workspace ≢ q
      → report_file workspace ≢ q
      → (approved ≡ true → announcement workspace ≢ q)
      → read q (resume_imported hexdigest floats show loads package_dir approved r).1 ≡ read q r.1
  unfolding resume_imported
  resume_imported_keeps package_dir workspace approved (raise e, fs) q w m n k = refl
  resume_imported_keeps package_dir workspace approved (ok report, fs) q w m n k =
      let there : report.restored_workspace ≡ workspace = w report refl in
      resume_prepared_keeps report.restored_workspace hexdigest floats show approved
        report.continued (prepare hexdigest loads package_dir fs) q fs
        (subst (λ x. resumed_graph x ≢ q) (sym there) m)
        (subst (λ x. report_file x ≢ q) (sym there) n)
        (subst (λ x. approved ≡ true → announcement x ≢ q) (sym there) k)

  -- Whatever its outcome, a resume changes no file that is not the workspace followed by parts none of
  -- which is `..`. Without an approval it changes, of what the import has left, only the resumed graph
  -- and the resume report: the announcement is not written.
  pub resume_imported_agent_writes :
      (above : String → String → Bool) (package_dir q : PurePath) (workspace_dir : Option PurePath)
      (approved : Bool) (fs : Files)
      → (¬ (Below (workspace_or package_dir workspace_dir) q)
          → read q
              (resume_imported_agent hexdigest floats show loads above package_dir workspace_dir
                approved fs).1
            ≡ read q fs)
        × (approved ≡ false
            → resumed_graph (workspace_or package_dir workspace_dir) ≢ q
            → report_file (workspace_or package_dir workspace_dir) ≢ q
            → read q
                (resume_imported_agent hexdigest floats show loads above package_dir workspace_dir
                  approved fs).1
              ≡ read q
                  (import_session loads floats above hexdigest show package_dir workspace_dir
                    runtime_id fs).1)
  unfolding resume_imported_agent
  resume_imported_agent_writes above package_dir q workspace_dir approved fs =
      let workspace : PurePath = workspace_or package_dir workspace_dir in
      let (graph, report, written) = written-Below workspace in
      let keeps =
        resume_imported_keeps package_dir workspace approved
          (import_session loads floats above hexdigest show package_dir workspace_dir runtime_id fs)
          q
          (import_session-workspace loads floats above hexdigest show package_dir workspace_dir
            runtime_id fs) in
      (
        λ n.
            keeps (λ e. n (subst (Below workspace) e graph))
              (λ e. n (subst (Below workspace) e report))
              (λ _ e. n (subst (Below workspace) e written))
            ∙ (import_session_writes loads floats above hexdigest show package_dir q workspace_dir
                  runtime_id fs).0
                n,
        λ a m n. keeps m n (λ t. cc (a, t)),
      )
