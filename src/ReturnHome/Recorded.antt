-- ===== src/ReturnHome/Recorded.antt =====
-- The continuation that a return home records, and what its workspace is to hold at the end.
use permeant_os.Prelude.{
  ◌∙◌, ℕ, String, ◌<>◌, ◌≡◌, ◌≢◌, refl, List, [], ◌∷◌, some, subst, differ, length,
}
use permeant_os.Py.Value.{Value, obj, str, text_of, is_str_self}
use permeant_os.Py.Result.{ok, ◌>>=◌, >>=-eq-ok, ok-injective}
use permeant_os.Py.Dict.{
  get_item, get_or, set_item, insert, set_item-get_item, lookup-insert, erase-insert,
}
use permeant_os.Py.Text.{encode}
use permeant_os.Py.Indent.{dumps_indented}
use permeant_os.Py.Path.{PurePath, path}
use permeant_os.Hashing.{sha256_bytes}
use permeant_os.Graph.{verify_graph, append_to, append_post_migration_node}
use permeant_os.Graph.Seal.{seal_sound}
use permeant_os.Embeddings.{Floats}
use permeant_os.Files.{Files, read, file_sha256_and_size}
use permeant_os.Files.Laws.{child-parts}
use permeant_os.Files.Streaming.{file_sha256_and_size_lem}
use permeant_os.Import.{Continued}
use permeant_os.Resume.{verify_resume_report_proof, report_hash}
use permeant_os.ReturnHome.Checks.{Evidence}
use permeant_os.ReturnHome.Work.{extend_with, return_edges, record_return}
use permeant_os.ReturnHome.{
  Returned, return_home_continuation_content, roundtrip_report, roundtrip_report_path,
  continue_home,
}
use permeant_os.ReturnHome.Effects.{continuation_file, returned_graph, roundtrip_report_file}

last_of : (a b s t : String) → a ∷ b ∷ s ∷ [] ≡ a ∷ b ∷ t ∷ [] → s ≡ t
last_of a b s t e = cc e

module _ (workspace : PurePath) where
  pub continuation-returned : returned_graph workspace ≢ continuation_file workspace
  unfolding path
  continuation-returned e = differ "returned-home-graph.json" "origin-continuation.md" refl (
      last_of "reports" "roundtrip" _ _ (
        child-parts workspace (path "reports/roundtrip/returned-home-graph.json")
          (path "reports/roundtrip/origin-continuation.md") refl refl e))

  pub report-continuation : roundtrip_report_file workspace ≢ continuation_file workspace
  unfolding path
  report-continuation e = differ "roundtrip-report.json" "origin-continuation.md" refl (
      last_of "reports" "roundtrip" _ _ (
        child-parts workspace (path "reports/roundtrip/roundtrip-report.json")
          (path "reports/roundtrip/origin-continuation.md") refl refl e))

  pub report-returned : roundtrip_report_file workspace ≢ returned_graph workspace
  unfolding path
  report-returned e = differ "roundtrip-report.json" "returned-home-graph.json" refl (
      last_of "reports" "roundtrip" _ _ (
        child-parts workspace (path "reports/roundtrip/roundtrip-report.json")
          (path "reports/roundtrip/returned-home-graph.json") refl refl e))

module _ (hexdigest : List ℕ → String) (floats : Floats) where
  -- A graph that records the return is sealed, and names the target's graph as its source.
  record_return-sealed :
      (graph target_hash recorded : Value) (proof artifact_hash hash : String) (size : ℕ)
      → record_return hexdigest floats graph target_hash proof artifact_hash hash size ≡ ok recorded
      → ((do h ← get_item recorded "graph_hash"; verify_graph hexdigest recorded h) ≡ ok tt)
        × (get_item recorded "roundtrip_source_graph_id" ≡ ok target_hash)
  unfolding record_return
  record_return-sealed graph target_hash recorded proof artifact_hash hash size h =
      let (a, _, h1) = >>=-eq-ok (append_post_migration_node hexdigest graph _ _ _) _ h in
      let (b, _, h2) = >>=-eq-ok (append_post_migration_node hexdigest a _ _ _) _ h1 in
      let (c, _, h3) = >>=-eq-ok (append_post_migration_node hexdigest b _ _ _) _ h2 in
      let (d, _, h4) = >>=-eq-ok (extend_with "edges" return_edges c) _ h3 in
      let (i, _, h5) = >>=-eq-ok (get_item d "graph_id") _ h4 in
      let (e, _, h6) = >>=-eq-ok (append_to d "lineage" _) _ h5 in
      let (s, k, h7) = >>=-eq-ok (set_item e "roundtrip_source_graph_id" target_hash) _ h6 in
      let (verified, source) =
        seal_sound hexdigest "roundtrip_source_graph_id" s recorded refl h7 in
      (verified, source ∙ set_item-get_item "roundtrip_source_graph_id" e s target_hash k)

  module _ (show : Value → String) (workspace : PurePath) where
    abbrev pub continuation_bytes : Evidence → Value → List ℕ
    continuation_bytes e proof = encode (
        return_home_continuation_content (text_of show e.graph_hash) (text_of show proof)
          e.artifact_hash)

    -- What the workspace holds after a return home, for the evidence that it accepted.
    pub record CameHome (e : Evidence) (c : Continued) (result : Value) (fs : Files) : Type 0 where
      pub returned : Returned
      pub verified :
          (do h ← get_item returned.graph "graph_hash"; verify_graph hexdigest returned.graph h)
          ≡ ok tt
      pub source : get_item returned.graph "roundtrip_source_graph_id" ≡ ok e.graph_hash
      pub proof : get_item e.report "proof_hash" ≡ ok returned.proof
      pub graph_written :
          read (returned_graph workspace) fs
          ≡ some (encode (dumps_indented 0 returned.graph <> "\n"))
      pub continuation_written :
          read (continuation_file workspace) fs ≡ some (continuation_bytes e returned.proof)
      pub continuation_hashed :
          returned.continuation_hash ≡ sha256_bytes hexdigest (continuation_bytes e returned.proof)
      pub continuation_sized :
          returned.continuation_size ≡ length (continuation_bytes e returned.proof)
      pub post : Value
      pub post_hash : get_item returned.graph "graph_hash" ≡ ok post
      pub report_written :
          read (roundtrip_report_file workspace) fs
          ≡ some (
              encode
                (dumps_indented 0 (obj (roundtrip_report hexdigest e returned post c)) <> "\n"))
      pub report_proven :
          verify_resume_report_proof hexdigest (obj (roundtrip_report hexdigest e returned post c))
          ≡ ok tt
      pub report_returned :
          result
          ≡ obj (
              insert "roundtrip_report_path"
                (str roundtrip_report_path)
                (roundtrip_report hexdigest e returned post c))

    pub report_proof :
        (e : Evidence) (r : Returned) (post : Value) (c : Continued)
        → verify_resume_report_proof hexdigest (obj (roundtrip_report hexdigest e r post c)) ≡ ok tt
    unfolding verify_resume_report_proof report_hash roundtrip_report get_or
    report_proof e r post c = rw (erase-insert, lookup-insert) (rw is_str_self)

    pub continue_home_sound :
        (e : Evidence) (proof : Value) (fs : Files) (r : Returned)
        → read (continuation_file workspace) fs ≡ some (continuation_bytes e proof)
        → continue_home hexdigest floats show e proof
            (file_sha256_and_size hexdigest (continuation_file workspace) fs)
          ≡ ok r
        → ((do h ← get_item r.graph "graph_hash"; verify_graph hexdigest r.graph h) ≡ ok tt)
          × (get_item r.graph "roundtrip_source_graph_id" ≡ ok e.graph_hash)
          × (r.proof ≡ proof)
          × (r.continuation_hash ≡ sha256_bytes hexdigest (continuation_bytes e proof))
          × (r.continuation_size ≡ length (continuation_bytes e proof))
    unfolding continue_home
    continue_home_sound e proof fs r there h =
        let bytes : List ℕ = continuation_bytes e proof in
        let h0 =
          rw (file_sha256_and_size_lem hexdigest (continuation_file workspace) fs bytes there) at
            h in
        let (g, k, h1) =
          >>=-eq-ok
            (record_return hexdigest floats e.graph e.graph_hash (text_of show proof)
              e.artifact_hash (sha256_bytes hexdigest bytes) (length bytes))
            _ h0 in
        let (verified, source) = record_return-sealed e.graph e.graph_hash g _ _ _ _ k in
        let same = ok-injective _ r h1 in
        subst
          (λ (x : Returned).
            ((do h ← get_item x.graph "graph_hash"; verify_graph hexdigest x.graph h) ≡ ok tt)
            × (get_item x.graph "roundtrip_source_graph_id" ≡ ok e.graph_hash)
            × (x.proof ≡ proof)
            × (x.continuation_hash ≡ sha256_bytes hexdigest bytes)
            × (x.continuation_size ≡ length bytes))
          same (verified, source, refl, refl, refl)
