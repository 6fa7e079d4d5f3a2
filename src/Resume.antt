-- ===== src/Resume.antt =====
-- examples/agent-memory-graph/local_agent.py: `resume_imported_agent`, and the check of its report.
-- The import has written its artifacts when the resume begins; what raises later leaves them there.
pub mod Work
pub mod Effects
pub mod Sealed
use permeant_os.Prelude.{ℕ, String, ◌<>◌, Bool, true, false, not, List, [], ◌∷◌, Option, none, some}
use permeant_os.Py.Value.{Value, null, str, int, bool, obj, dict, list, fields, Fields, is_str}
use permeant_os.Py.Result.{Result, ok, raise, invalid, attribute_error, ◌>>=◌, ◌>>◌, reject_if}
use permeant_os.Py.Dict.{get, get_item, lookup, insert, erase}
use permeant_os.Py.Text.{encode, join}
use permeant_os.Py.Indent.{dumps_indented}
use permeant_os.Py.Path.{PurePath, child, path}
use permeant_os.Py.Value.{text_of}
use permeant_os.Constants.{runtime_id}
use permeant_os.Hashing.{sha256_json}
use permeant_os.Graph.{node_by_id}
use permeant_os.Paths.{safe_package_relative_path}
use permeant_os.Embeddings.{Floats}
use permeant_os.Files.{write_json, Files, write, file_sha256_and_size}
use permeant_os.Import.{ImportReport, Continued, import_session, read_json}
use permeant_os.Resume.Work.{
  announcement_path, read_call, publish_call, quota_result_hash, retry_read_tool,
  approve_publish_tool, record_publish, finish_graph,
}

abbrev pub resumed_graph_path : String
resumed_graph_path = "reports/resume/resumed-graph.json"

abbrev pub resume_report_path : String
resume_report_path = "reports/resume/resume-report.json"

unfoldable pub publish_announcement_content : Continued → String → String
publish_announcement_content continued pre_resume_graph_hash = join "\n" (
    "# PermeantOS Agent Activity Continuation Proof"
    ∷ ""
    ∷ "The imported agent resumed after migration, retried safe read-only work,"
    ∷ "received explicit publish approval, and wrote this post-migration artifact."
    ∷ ""
    ∷ ("- pre-resume graph hash: `" <> pre_resume_graph_hash <> "`")
    ∷ ("- prompt token hash: `" <> continued.prompt_token_hash <> "`")
    ∷ ("- simulated KV hash: `" <> continued.kv_hash <> "`")
    ∷ "- safe read-only quota check: `completed`"
    ∷ "- approved publish write: `completed`"
    ∷ ""
    ∷ [])

-- The graph, and the three lists of the report.
pub record Activity : Type 0 where
  pub graph : Value
  pub executed_tools : List Value
  pub blocked_tools : List Value
  pub written_artifacts : List Value

-- What the resume reads before it publishes: the graph with the read-only call run again, the
-- hash from before, and the publish tool.
pub record Resuming : Type 0 where
  pub graph : Value
  pub pre_hash : Value
  pub publish_tool : Value

-- the entry for a publication that was not approved
unfoldable pub blocked_entry : Value → Result Value
blocked_entry publish_tool = do
  status ← get publish_tool "status"
  approval_state ← get publish_tool "approval_state"
  ok (
      dict (
        ("node_id", str publish_call)
        ∷ ("name", str "fs.write_file")
        ∷ ("side_effect", str "external_write")
        ∷ ("status", status)
        ∷ ("approval_state", approval_state)
        ∷ ("reason", str "explicit publish approval was not supplied")
        ∷ []))

-- `{key: value for key, value in report.items() if key != "proof_hash"}`, hashed
unfoldable pub report_hash : (List ℕ → String) → Value → Result String
report_hash hexdigest (obj fs) = ok (sha256_json hexdigest (obj (erase "proof_hash" fs)))
report_hash hexdigest _ = raise attribute_error

unfoldable pub verify_resume_report_proof : (List ℕ → String) → Value → Result (Unit {0})
verify_resume_report_proof hexdigest report = do
  expected ← report_hash hexdigest report
  proof ← get report "proof_hash"
  reject_if (not (is_str proof expected)) (invalid "target resume report proof hash mismatch" [])

module _ (hexdigest : List ℕ → String) where
  unfoldable pub read_entry : Value
  read_entry = dict (
      ("node_id", str read_call)
      ∷ ("name", str "aws.ec2.describe_instances")
      ∷ ("side_effect", str "read_only")
      ∷ ("status", str "completed")
      ∷ ("result_hash", str (quota_result_hash hexdigest))
      ∷ [])

  -- the report, with its proof
  unfoldable pub resume_report : Activity → Bool → Value → Value → Continued → Fields
  resume_report a approve_publish pre_hash post_hash continued =
      let report = fields (
        ("status", str "continued")
        ∷ ("activity_continued", bool true)
        ∷ ("publish_approved", bool approve_publish)
        ∷ ("pre_resume_graph_hash", pre_hash)
        ∷ ("post_resume_graph_hash", post_hash)
        ∷ ("prompt_token_hash", str continued.prompt_token_hash)
        ∷ ("kv_hash", str continued.kv_hash)
        ∷ ("executed_tools", list a.executed_tools)
        ∷ ("blocked_tools", list a.blocked_tools)
        ∷ ("written_artifacts", list a.written_artifacts)
        ∷ ("resumed_graph_path", str resumed_graph_path)
        ∷ ("proof_hash", str "")
        ∷ []) in
      insert "proof_hash" (str (sha256_json hexdigest (obj (erase "proof_hash" report)))) report

  -- the two files at the end
  unfoldable pub write_report :
      PurePath → Activity → Bool → Value → Continued → Result Value → Files → Result Value × Files
  write_report workspace a approve_publish pre_hash continued (raise e) fs = (raise e, fs)
  write_report workspace a approve_publish pre_hash continued (ok post_hash) fs =
      let report = resume_report a approve_publish pre_hash post_hash continued in
      (
        ok (obj (insert "resume_report_path" (str resume_report_path) report)),
        write_json (child workspace (path resume_report_path)) (obj report) fs,
      )

  unfoldable pub write_resumed :
      PurePath → Activity → Bool → Value → Continued → Result Value → Files → Result Value × Files
  unfolding write_report
  write_resumed workspace a approve_publish pre_hash continued (raise e) fs = (raise e, fs)
  write_resumed workspace a approve_publish pre_hash continued (ok graph) fs =
      write_report workspace a approve_publish pre_hash continued (get_item graph "graph_hash")
        (write_json (child workspace (path resumed_graph_path)) graph fs)

  unfoldable pub conclude_resume :
      PurePath → Bool → Value → Continued → Result Activity × Files → Result Value × Files
  unfolding write_resumed
  conclude_resume workspace approve_publish pre_hash continued (raise e, fs) = (raise e, fs)
  conclude_resume workspace approve_publish pre_hash continued (ok a, fs) =
      write_resumed workspace a approve_publish pre_hash continued
        (finish_graph hexdigest a.graph pre_hash) fs

  -- what a resume does before it publishes
  unfoldable pub prepare : (List ℕ → Result Value) → PurePath → Files → Result Resuming
  prepare loads package_dir fs = do
    manifest ← read_json loads (child package_dir (path "manifest.json")) fs
    graph_path ← get_item manifest "graph_path"
    relative ← safe_package_relative_path graph_path
    graph ← read_json loads (child package_dir relative) fs
    pre_hash ← get_item graph "graph_hash"
    retried ← retry_read_tool hexdigest graph
    publish_tool ← node_by_id retried publish_call
    ok (record { graph = retried; pre_hash = pre_hash; publish_tool = publish_tool })

  module _ (floats : Floats) (show : Value → String) where
    -- the activity of a publication that was written with some digest and size
    unfoldable pub publish_activity : Value → Result (String × ℕ) → Result Activity
    publish_activity graph written = do
      (hash, size) ← written
      recorded ← record_publish hexdigest floats graph hash size
      ok (record {
        graph = recorded;
        executed_tools =
            read_entry
            ∷ dict (
                ("node_id", str publish_call)
                ∷ ("name", str "fs.write_file")
                ∷ ("side_effect", str "external_write")
                ∷ ("status", str "completed")
                ∷ ("approval_state", str "approved")
                ∷ ("artifact_hash", str hash)
                ∷ [])
            ∷ [];
        blocked_tools = [];
        written_artifacts =
            dict (
              ("path", str announcement_path)
              ∷ ("sha256", str hash)
              ∷ ("size_bytes", int size)
              ∷ [])
            ∷ [];
      })

    -- the writing of the announcement, once the gate is passed
    unfoldable pub write_announcement :
        PurePath → Continued → Value → Result Value → Files → Result Activity × Files
    write_announcement workspace continued pre_hash (raise e) fs = (raise e, fs)
    write_announcement workspace continued pre_hash (ok graph) fs =
        let target = child workspace (path announcement_path) in
        let fs' =
          write target (encode (publish_announcement_content continued (text_of show pre_hash)))
            fs in
        (publish_activity graph (file_sha256_and_size hexdigest target fs'), fs')

    unfoldable pub publish :
        Bool → PurePath → Continued → Value → Value → Value → Files → Result Activity × Files
    unfolding write_announcement
    publish true workspace continued pre_hash graph publish_tool fs =
        write_announcement workspace continued pre_hash
          (approve_publish_tool hexdigest graph publish_tool) fs
    publish false workspace continued pre_hash graph publish_tool fs = (
      (do
        blocked ← blocked_entry publish_tool
        ok (record {
          graph = graph;
          executed_tools = read_entry ∷ [];
          blocked_tools = blocked ∷ [];
          written_artifacts = [];
        })),
      fs,
    )

    unfoldable pub resume_prepared :
        Bool → PurePath → Continued → Result Resuming → Files → Result Value × Files
    resume_prepared approve_publish workspace continued (raise e) fs = (raise e, fs)
    resume_prepared approve_publish workspace continued (ok r) fs =
        conclude_resume workspace approve_publish r.pre_hash continued
          (publish approve_publish workspace continued r.pre_hash r.graph r.publish_tool fs)

    unfoldable pub resume_imported :
        (List ℕ → Result Value)
        → PurePath
        → Bool
        → Result ImportReport × Files
        → Result Value × Files
    unfolding resume_prepared
    resume_imported loads package_dir approve_publish (raise e, fs) = (raise e, fs)
    resume_imported loads package_dir approve_publish (ok report, fs) =
        resume_prepared approve_publish report.restored_workspace report.continued
          (prepare loads package_dir fs) fs

    unfoldable pub resume_imported_agent :
        (List ℕ → Result Value)
        → (String → String → Bool)
        → PurePath
        → Option PurePath
        → Bool
        → Files
        → Result Value × Files
    unfolding resume_imported
    resume_imported_agent loads above package_dir workspace_dir approve_publish fs =
        resume_imported loads package_dir approve_publish
          (import_session loads floats above hexdigest show package_dir workspace_dir runtime_id fs)
