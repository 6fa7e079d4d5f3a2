-- ===== src/ReturnHome.antt =====
-- examples/agent-memory-graph/local_agent.py: `return_home_after_target_resume`. The import has
-- written its artifacts when the evidence is checked, and the continuation is written before the
-- graph is changed; what raises later leaves them there.
pub mod Checks
pub mod Work
pub mod Proven
pub mod Sound
pub mod Effects
pub mod Recorded
pub mod Outcome
use permeant_os.Prelude.{ℕ, String, ◌<>◌, Bool, List, [], ◌∷◌, Option, none, some}
use permeant_os.Py.Value.{Value, str, int, bool, obj, dict, list, fields, Fields, text_of}
use permeant_os.Py.Result.{Result, ok, raise, ◌>>=◌, ◌>>◌}
use permeant_os.Py.Dict.{get_item, insert, erase}
use permeant_os.Py.Text.{encode, join}
use permeant_os.Py.Path.{PurePath, child, path}
use permeant_os.Constants.{runtime_id}
use permeant_os.Hashing.{sha256_json}
use permeant_os.Embeddings.{Floats}
use permeant_os.Files.{write_json, Files, write, file_sha256_and_size}
use permeant_os.Import.{ImportReport, Continued, import_session, read_json}
use permeant_os.ReturnHome.Checks.{Evidence, check_evidence}
use permeant_os.ReturnHome.Work.{continuation_path, record_return}

abbrev pub returned_graph_path : String
returned_graph_path = "reports/roundtrip/returned-home-graph.json"

abbrev pub roundtrip_report_path : String
roundtrip_report_path = "reports/roundtrip/roundtrip-report.json"

-- the hash of the target graph, the proof of the target report, and the hash of its artifact
unfoldable pub return_home_continuation_content : String → String → String → String
return_home_continuation_content target_graph_hash target_proof target_artifact_hash = join "\n" (
    "# PermeantOS Round-Trip Continuation Proof"
    ∷ ""
    ∷ "The origin imported the AWS-updated Agent Memory Graph, verified the"
    ∷ "remote post-migration work evidence, and continued from the returned state."
    ∷ ""
    ∷ ("- target post-resume graph hash: `" <> target_graph_hash <> "`")
    ∷ ("- target proof hash: `" <> target_proof <> "`")
    ∷ ("- target artifact hash: `" <> target_artifact_hash <> "`")
    ∷ "- origin continuation: `completed`"
    ∷ ""
    ∷ [])

-- The graph that came home, the proof that the target's report carries, and the continuation.
pub record Returned : Type 0 where
  pub graph : Value
  pub proof : Value
  pub continuation_hash : String
  pub continuation_size : ℕ

abbrev pub origin_workspace : PurePath → Option PurePath → PurePath
origin_workspace package_dir (some workspace_dir) = workspace_dir
origin_workspace package_dir none = child package_dir (path "roundtrip-origin-workspace")

module _ (hexdigest : List ℕ → String) where
  -- the report, with its proof
  unfoldable pub roundtrip_report : Evidence → Returned → Value → Continued → Fields
  roundtrip_report e r post_hash continued =
      let report = fields (
        ("status", str "round_trip_continued")
        ∷ ("round_trip_continued", bool Bool.true)
        ∷ ("origin_pre_graph_hash", e.original_hash)
        ∷ ("target_post_graph_hash", e.graph_hash)
        ∷ ("origin_post_graph_hash", post_hash)
        ∷ ("target_proof_hash", r.proof)
        ∷ ("target_artifact_hash", str e.artifact_hash)
        ∷ ("prompt_token_hash", str continued.prompt_token_hash)
        ∷ ("kv_hash", str continued.kv_hash)
        ∷ (
          "origin_written_artifacts",
          list (
              dict (
                ("path", str continuation_path)
                ∷ ("sha256", str r.continuation_hash)
                ∷ ("size_bytes", int r.continuation_size)
                ∷ [])
              ∷ []),
        )
        ∷ ("returned_graph_path", str returned_graph_path)
        ∷ ("proof_hash", str "")
        ∷ []) in
      insert "proof_hash" (str (sha256_json hexdigest (obj (erase "proof_hash" report)))) report

  -- the two files at the end
  unfoldable pub write_roundtrip_report :
      PurePath → Evidence → Returned → Continued → Result Value → Files → Result Value × Files
  write_roundtrip_report workspace e r continued (raise x) fs = (raise x, fs)
  write_roundtrip_report workspace e r continued (ok post_hash) fs =
      let report = roundtrip_report e r post_hash continued in
      (
        ok (obj (insert "roundtrip_report_path" (str roundtrip_report_path) report)),
        write_json (child workspace (path roundtrip_report_path)) (obj report) fs,
      )

  unfoldable pub conclude_return :
      PurePath → Evidence → Continued → Result Returned × Files → Result Value × Files
  unfolding write_roundtrip_report
  conclude_return workspace e continued (raise x, fs) = (raise x, fs)
  conclude_return workspace e continued (ok r, fs) =
      write_roundtrip_report workspace e r continued (get_item r.graph "graph_hash")
        (write_json (child workspace (path returned_graph_path)) r.graph fs)

  -- what the origin reads of the target once its import has returned
  unfoldable pub read_evidence :
      (List ℕ → Result Value)
      → (Value → Result Value)
      → PurePath
      → PurePath
      → PurePath
      → Option PurePath
      → Files
      → Result Evidence
  read_evidence loads parse_int package_dir graph_path report_path artifact_path fs = do
    manifest ← read_json loads (child package_dir (path "manifest.json")) fs
    graph ← read_json loads graph_path fs
    report ← read_json loads report_path fs
    check_evidence hexdigest parse_int artifact_path manifest graph report fs

  module _ (floats : Floats) (show : Value → String) where
    -- the graph with the continuation recorded, whose digest and size were read back
    unfoldable pub continue_home : Evidence → Value → Result (String × ℕ) → Result Returned
    continue_home e proof written = do
      (hash, size) ← written
      graph ←
          record_return hexdigest floats e.graph e.graph_hash (text_of show proof) e.artifact_hash
            hash size
      ok (record {
        graph = graph;
        proof = proof;
        continuation_hash = hash;
        continuation_size = size;
      })

    unfoldable pub write_continuation :
        PurePath → Evidence → Result Value → Files → Result Returned × Files
    unfolding continue_home
    write_continuation workspace e (raise x) fs = (raise x, fs)
    write_continuation workspace e (ok proof) fs =
        let target = child workspace (path continuation_path) in
        let fs' =
          write target
            (encode (
              return_home_continuation_content (text_of show e.graph_hash) (text_of show proof)
                e.artifact_hash))
            fs in
        (continue_home e proof (file_sha256_and_size hexdigest target fs'), fs')

    unfoldable pub return_checked :
        PurePath → Continued → Result Evidence → Files → Result Value × Files
    unfolding write_continuation conclude_return
    return_checked workspace continued (raise x) fs = (raise x, fs)
    return_checked workspace continued (ok e) fs =
        conclude_return workspace e continued
          (write_continuation workspace e (get_item e.report "proof_hash") fs)

    unfoldable pub return_imported :
        (List ℕ → Result Value)
        → (Value → Result Value)
        → PurePath
        → PurePath
        → PurePath
        → PurePath
        → Option PurePath
        → Result ImportReport × Files
        → Result Value × Files
    unfolding return_checked
    return_imported loads parse_int package_dir workspace graph_path report_path artifact_path
          (raise x, fs) =
        (raise x, fs)
    return_imported loads parse_int package_dir workspace graph_path report_path artifact_path
          (ok imported, fs) =
        return_checked workspace imported.continued
          (read_evidence loads parse_int package_dir graph_path report_path artifact_path fs) fs

    unfoldable pub return_home_after_target_resume :
        (List ℕ → Result Value)
        → (Value → Result Value)
        → (String → String → Bool)
        → PurePath
        → PurePath
        → PurePath
        → Option PurePath
        → Option PurePath
        → Files
        → Result Value × Files
    unfolding return_imported
    return_home_after_target_resume loads parse_int above package_dir graph_path report_path
          workspace_dir artifact_path fs =
        let workspace = origin_workspace package_dir workspace_dir in
        return_imported loads parse_int package_dir workspace graph_path report_path artifact_path (
          import_session loads floats above hexdigest show package_dir
            (some (child workspace (path "origin-import"))) runtime_id fs)
