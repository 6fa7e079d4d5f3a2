-- ===== src/Complex/Written.antt =====
-- The package that `export_complex_session` writes.
use permeant_os.Prelude.{
  ℕ, String, ◌<>◌, ◌≡◌, ◌∙◌, refl, List, some, subst, inl, inr, ◌==◌, false, length, map,
}
use permeant_os.Py.Value.{Value, obj, list}
use permeant_os.Py.Result.{ok, ◌>>=◌, >>=-eq-ok, ok-injective, Result-cases}
use permeant_os.Py.Dict.{get_item, set_item, lookup-insert}
use permeant_os.Py.Text.{encode}
use permeant_os.Py.Indent.{dumps_indented}
use permeant_os.Py.Path.{PurePath}
use permeant_os.Graph.{verify_graph}
use permeant_os.Audit.{entry_value, audit_tool_replay_safety}
use permeant_os.Security.{build_security_attestation}
use permeant_os.Files.{Files, read, write_json}
use permeant_os.Files.Laws.{read-write_ne, read-write_self}
use permeant_os.Artifacts.{ArtifactRecord, ExportPolicy, manifest_artifact}
use permeant_os.Embeddings.{Floats}
use permeant_os.Prompt.{reconstruct_prompt_from_messages}
use permeant_os.VectorMemory.{build_vector_snapshot}
use permeant_os.Export.{build_graph}
use permeant_os.Export.Messages.{said}
use permeant_os.Export.Package.{build_manifest, snapshot_value}
use permeant_os.Export.Written.{manifest_file, graph_file, two_files, build_manifest-graph_hash}
use permeant_os.Complex.{
  complex_artifact_payloads, run_complex_session, extend_graph_for_complex_agent, Bool,
}
use permeant_os.Complex.Sealed.{extend_graph-sealed}
use permeant_os.Complex.Package.{
  ComplexPackage, complexity_of, first_record, records_of, revise_manifest, build_complex_package,
  export_complex_session,
}

set_item-keeps :
    (k : String) (v w x : Value)
    → (k == "graph_hash") ≡ false
    → set_item v k x ≡ ok w
    → get_item w "graph_hash" ≡ get_item v "graph_hash"
unfolding set_item get_item
set_item-keeps k (obj fs) w x n h =
    subst (λ (s : Value). get_item s "graph_hash" ≡ get_item (obj fs) "graph_hash")
      (ok-injective _ w h) (rw (lookup-insert, n))
set_item-keeps k _ w x n h = cc h

module _ (floats : Floats) (above : String → String → Bool) (hexdigest : List ℕ → String)
    (show : Value → String) where
  revise_manifest-graph_hash :
      (manifest graph revised : Value) (records : List ArtifactRecord)
      → revise_manifest floats above hexdigest show manifest graph records ≡ ok revised
      → get_item revised "graph_hash" ≡ get_item manifest "graph_hash"
  unfolding revise_manifest
  revise_manifest-graph_hash manifest graph revised records h =
      let (a, e1, h1) =
        >>=-eq-ok (set_item manifest "artifacts" (list (map manifest_artifact records))) _ h in
      let (audit, _, h2) = >>=-eq-ok (audit_tool_replay_safety graph) _ h1 in
      let (b, e2, h3) =
        >>=-eq-ok (set_item a "side_effect_audit" (list (map entry_value audit))) _ h2 in
      let (s, _, h4) =
        >>=-eq-ok
          (build_vector_snapshot floats above hexdigest show graph "report artifact complete") _
          h3 in
      let (c, e3, h5) =
        >>=-eq-ok (set_item b "vector_memory" (snapshot_value floats above hexdigest show s)) _
          h4 in
      let (security, _, h6) = >>=-eq-ok (build_security_attestation hexdigest graph) _ h5 in
      let (d, e4, h7) = >>=-eq-ok (set_item c "security" security) _ h6 in
      let (complexity, _, h8) = >>=-eq-ok (complexity_of graph (length records)) _ h7 in
      set_item-keeps "complexity" d revised complexity refl h8
      ∙ set_item-keeps "security" c d security refl e4
      ∙ set_item-keeps "vector_memory" b c _ refl e3
      ∙ set_item-keeps "side_effect_audit" a b _ refl e2
      ∙ set_item-keeps "artifacts" manifest a _ refl e1

  build_complex_package-verified :
      (policy : ExportPolicy) (p : ComplexPackage)
      → build_complex_package floats above hexdigest show policy ≡ ok p
      → (do h ← get_item p.manifest "graph_hash"; verify_graph hexdigest p.graph h) ≡ ok tt
  unfolding build_complex_package
  build_complex_package-verified policy p h =
      let (session, _, h1) = >>=-eq-ok (run_complex_session hexdigest show) _ h in
      let (prompt, _, h2) =
        >>=-eq-ok (reconstruct_prompt_from_messages show (said session.messages)) _ h1 in
      let records : List ArtifactRecord =
        records_of floats above hexdigest show policy complex_artifact_payloads in
      let (first, _, h3) = >>=-eq-ok (first_record records) _ h2 in
      let (built, _, h4) = >>=-eq-ok (build_graph floats hexdigest session first prompt) _ h3 in
      let (graph, e, h5) =
        >>=-eq-ok (extend_graph_for_complex_agent floats above hexdigest show built records) _ h4 in
      let (m, d, h6) =
        >>=-eq-ok (build_manifest floats above hexdigest show graph session prompt first) _ h5 in
      let (r, k, h7) =
        >>=-eq-ok (revise_manifest floats above hexdigest show m graph records) _ h6 in
      subst
        (λ (x : ComplexPackage).
          (do h ← get_item x.manifest "graph_hash"; verify_graph hexdigest x.graph h) ≡ ok tt)
        (ok-injective _ p h7)
        (rw
          (
            revise_manifest-graph_hash m graph r records k,
            build_manifest-graph_hash floats above hexdigest show graph m session prompt first d,
          )
          (extend_graph-sealed floats above hexdigest show built graph records e))

  -- If the export of the complex session returns a manifest, then the package holds that manifest and a
  -- graph, printed as JSON, and the graph passes the hash check against the hash that the manifest
  -- names.
  pub export_complex_session_writes :
      (dir : PurePath) (policy : ExportPolicy) (fs : Files) (m : Value)
      → (export_complex_session floats above hexdigest show dir policy fs).0 ≡ ok m
      → (p : ComplexPackage) × (p.manifest ≡ m)
        × ((do h ← get_item p.manifest "graph_hash"; verify_graph hexdigest p.graph h) ≡ ok tt)
        × (read
              (manifest_file dir)
              (export_complex_session floats above hexdigest show dir policy fs).1
            ≡ some (encode (dumps_indented 0 p.manifest <> "\n")))
        × (read
              (graph_file dir)
              (export_complex_session floats above hexdigest show dir policy fs).1
            ≡ some (encode (dumps_indented 0 p.graph <> "\n")))
  unfolding export_complex_session write_json
  export_complex_session_writes dir policy fs m h =
      elim (Result-cases (build_complex_package floats above hexdigest show policy)) [
        | inr (e, k) ↦ cc (rw k at h)
        | inl (p, k) ↦ rw k (
          p,
          ok-injective p.manifest m (rw k at h),
          build_complex_package-verified policy p k,
          read-write_self (manifest_file dir) _ _,
          read-write_ne (manifest_file dir) (graph_file dir) _ _ (two_files dir)
              ∙ read-write_self (graph_file dir) _ _,
        )
      ]
