-- ===== src/ReturnHome/Outcome.antt =====
-- What a return home that returns a report has written.
use permeant_os.Prelude.{
  Option, ◌∙◌, sym, ap, inl, inr, ℕ, String, ◌≡◌, refl, List, some, length, Bool,
}
use permeant_os.Py.Value.{Value}
use permeant_os.Py.Result.{raise, Result, Result-cases, ok, ◌>>=◌, ok-injective}
use permeant_os.Py.Dict.{get_item}
use permeant_os.Py.Path.{PurePath, path, child}
use permeant_os.Hashing.{sha256_bytes}
use permeant_os.Graph.{verify_graph}
use permeant_os.Embeddings.{Floats}
use permeant_os.Files.{write, write_json, Files, read, file_sha256_and_size}
use permeant_os.Constants.{runtime_id}
use permeant_os.Files.Laws.{read-write_ne, read-write_self}
use permeant_os.Import.{ImportReport, import_session, Continued}
use permeant_os.ReturnHome.Checks.{Evidence}
use permeant_os.ReturnHome.{
  conclude_return, write_roundtrip_report, return_checked, return_imported, read_evidence,
  write_continuation, origin_workspace, return_home_after_target_resume, Returned, continue_home,
}
use permeant_os.ReturnHome.Effects.{
  TargetProven, read_evidence_sound, continuation_file, returned_graph, roundtrip_report_file,
}
use permeant_os.ReturnHome.Recorded.{
  continuation_bytes, CameHome, continue_home_sound, report_proof, continuation-returned,
  report-continuation, report-returned,
}

module _ (hexdigest : List ℕ → String) (floats : Floats) (show : Value → String)
    (workspace : PurePath) where
  -- the two files at the end, on files that hold the continuation
  conclude_return_sound :
      (e : Evidence) (c : Continued) (r : Returned) (fs : Files) (result : Value)
      → get_item e.report "proof_hash" ≡ ok r.proof
      → ((do h ← get_item r.graph "graph_hash"; verify_graph hexdigest r.graph h) ≡ ok tt)
        × (get_item r.graph "roundtrip_source_graph_id" ≡ ok e.graph_hash)
      → read (continuation_file workspace) fs
        ≡ some (continuation_bytes hexdigest floats show workspace e r.proof)
      → (r.continuation_hash
          ≡ sha256_bytes hexdigest (continuation_bytes hexdigest floats show workspace e r.proof))
        × (r.continuation_size
            ≡ length (continuation_bytes hexdigest floats show workspace e r.proof))
      → (conclude_return hexdigest workspace e c (ok r, fs)).0 ≡ ok result
      → CameHome hexdigest floats show workspace e c result
          (conclude_return hexdigest workspace e c (ok r, fs)).1
  unfolding conclude_return write_roundtrip_report write_json
  conclude_return_sound e c r fs result p v there hashed h =
      elim (Result-cases (get_item r.graph "graph_hash")) [
        | inr (x, k) ↦ cc (rw k at h)
        | inl (post, k) ↦ rw k (record {
          returned = r;
          verified = v.0;
          source = v.1;
          proof = p;
          graph_written =
              read-write_ne (roundtrip_report_file workspace) (returned_graph workspace) _ _
                (report-returned workspace)
              ∙ read-write_self (returned_graph workspace) _ fs;
          continuation_written =
              read-write_ne (roundtrip_report_file workspace) (continuation_file workspace) _ _
                (report-continuation workspace)
              ∙ read-write_ne (returned_graph workspace) (continuation_file workspace) _ fs
                  (continuation-returned workspace)
              ∙ there;
          continuation_hashed = hashed.0;
          continuation_sized = hashed.1;
          post = post;
          post_hash = k;
          report_written = read-write_self (roundtrip_report_file workspace) _ _;
          report_proven = report_proof hexdigest floats show workspace e r post c;
          report_returned = sym (ok-injective _ result (rw k at h));
        })
      ]

  return_checked_sound :
      (e : Evidence) (c : Continued) (fs : Files) (result : Value)
      → (return_checked hexdigest floats show workspace c (ok e) fs).0 ≡ ok result
      → CameHome hexdigest floats show workspace e c result
          (return_checked hexdigest floats show workspace c (ok e) fs).1
  unfolding return_checked write_continuation
  return_checked_sound e c fs result h = elim (Result-cases (get_item e.report "proof_hash")) [
    | inr (x, k) ↦ cc (rw (k, write_continuation, conclude_return) at h)
    | inl (proof, k) ↦
        let fs' : Files =
          write (continuation_file workspace)
            (continuation_bytes hexdigest floats show workspace e proof) fs in
        let there : read (continuation_file workspace) fs'
            ≡ some (continuation_bytes hexdigest floats show workspace e proof) =
          read-write_self (continuation_file workspace)
            (continuation_bytes hexdigest floats show workspace e proof) fs in
        elim (Result-cases (
          continue_home hexdigest floats show e proof
            (file_sha256_and_size hexdigest (continuation_file workspace) fs'))) [
              | inr (x, j) ↦ cc (rw (k, j, conclude_return) at h)
              | inl (r, j) ↦
                  let (verified, source, same, hashed, sized) =
                    continue_home_sound hexdigest floats show workspace e proof fs' r there j in
                  rw (k, j)
                    (conclude_return_sound e c r fs' result (k ∙ ap ok (sym same))
                      (verified, source)
                      (there
                        ∙ ap (λ x. some (continuation_bytes hexdigest floats show workspace e x))
                            (sym same))
                      (
                        hashed
                            ∙ ap
                                (λ x.
                                  sha256_bytes hexdigest
                                    (continuation_bytes hexdigest floats show workspace e x))
                                (sym same),
                        sized
                            ∙ ap
                                (λ x.
                                  length (continuation_bytes hexdigest floats show workspace e x))
                                (sym same),
                      )
                      (rw (k, j) at h))
            ]
  ]

  module _ (loads : List ℕ → Result Value) (parse_int : Value → Result Value)
      (package_dir graph_path report_path : PurePath) (artifact_path : Option PurePath) where
    return_imported_sound :
        (r : Result ImportReport × Files) (result : Value)
        → (return_imported hexdigest floats show loads parse_int package_dir workspace graph_path
            report_path artifact_path r).0
          ≡ ok result
        → (i : ImportReport) × (r.0 ≡ ok i)
          × ((e : Evidence) × TargetProven hexdigest floats show loads parse_int package_dir
                graph_path report_path artifact_path r.1 e
              × CameHome hexdigest floats show workspace e i.continued result
                  (return_imported hexdigest floats show loads parse_int package_dir workspace
                    graph_path report_path artifact_path r).1)
    unfolding return_imported
    return_imported_sound (raise x, fs) result h = cc h
    return_imported_sound (ok i, fs) result h =
        elim (Result-cases (
          read_evidence hexdigest loads parse_int package_dir graph_path report_path artifact_path
            fs)) [
              | inr (x, k) ↦ cc (rw (k, return_checked) at h)
              | inl (e, k) ↦ (
                i,
                refl,
                (
                  e,
                  read_evidence_sound hexdigest floats show loads parse_int package_dir graph_path
                      report_path artifact_path fs e k,
                  rw k (return_checked_sound e i.continued fs result (rw k at h)),
                ),
              )
            ]

module _ (hexdigest : List ℕ → String) (floats : Floats) (show : Value → String)
    (loads : List ℕ → Result Value) (parse_int : Value → Result Value)
    (package_dir graph_path report_path : PurePath) (artifact_path : Option PurePath) where
  -- If a return home returns a report, then the import of the original package returned one, the
  -- target's report, graph and artifact are proven on the files that it left, and the workspace holds
  -- the continuation with the digest and size that are recorded, a graph that passes the hash check and
  -- names the target's graph as its source, and the report, whose proof passes the check that is made
  -- of a target's report.
  pub return_home_sound :
      (above : String → String → Bool) (workspace_dir : Option PurePath) (fs : Files)
      (result : Value)
      → (return_home_after_target_resume hexdigest floats show loads parse_int above package_dir
          graph_path report_path workspace_dir artifact_path fs).0
        ≡ ok result
      → (i : ImportReport) × ((import_session loads floats above hexdigest show package_dir
            (some (child (origin_workspace package_dir workspace_dir) (path "origin-import")))
            runtime_id
            fs).0
          ≡ ok i)
        × ((e : Evidence) × TargetProven hexdigest floats show loads parse_int package_dir
              graph_path report_path artifact_path
              (import_session loads floats above hexdigest show package_dir
                (some (child (origin_workspace package_dir workspace_dir) (path "origin-import")))
                runtime_id
                fs).1
              e
            × CameHome hexdigest floats show
                (origin_workspace package_dir workspace_dir)
                e
                i.continued
                result
                (return_home_after_target_resume hexdigest floats show loads parse_int above
                  package_dir graph_path report_path workspace_dir artifact_path fs).1)
  unfolding return_home_after_target_resume
  return_home_sound above workspace_dir fs result h =
      return_imported_sound hexdigest floats show (origin_workspace package_dir workspace_dir) loads
        parse_int package_dir graph_path report_path artifact_path
        (import_session loads floats above hexdigest show package_dir
          (some (child (origin_workspace package_dir workspace_dir) (path "origin-import")))
          runtime_id fs)
        result h
