-- ===== src/Export/Written.antt =====
-- The package that `export_session` writes.
use permeant_os.Prelude.{
  ℕ, String, ◌<>◌, ◌≡◌, ◌≢◌, ◌∙◌, sym, refl, List, [], ◌∷◌, some, subst, differ, Bool, inl, inr,
}
use permeant_os.Py.Value.{Value}
use permeant_os.Py.Result.{ok, ◌>>=◌, >>=-eq-ok, ok-injective, Result-cases}
use permeant_os.Py.Dict.{get_item, lookup}
use permeant_os.Py.Text.{encode}
use permeant_os.Py.Indent.{dumps_indented}
use permeant_os.Py.Path.{PurePath, child, path}
use permeant_os.Graph.{verify_graph}
use permeant_os.Audit.{audit_tool_replay_safety}
use permeant_os.Security.{build_security_attestation}
use permeant_os.Files.{Files, read, write_json}
use permeant_os.Files.Laws.{child-parts, read-write_ne, read-write_self}
use permeant_os.Artifacts.{ArtifactRecord, ExportPolicy, build_artifact_record_from_bytes}
use permeant_os.Embeddings.{Floats}
use permeant_os.Prompt.{
  tokenize_prompt, token_hash, simulated_kv_hash, reconstruct_prompt,
  reconstruct_prompt_from_messages,
}
use permeant_os.VectorMemory.{build_vector_snapshot}
use permeant_os.Export.{LocalSession, build_graph}
use permeant_os.Export.Messages.{said, build_graph-reconstruct}
use permeant_os.Export.Package.{
  Package, build_manifest, build_package, export_session, run_reference_session,
}

abbrev pub manifest_file : PurePath → PurePath
manifest_file dir = child dir (path "manifest.json")

abbrev pub graph_file : PurePath → PurePath
graph_file dir = child dir (path "graph.json")

one_part : (s t : String) → s ∷ [] ≡ t ∷ [] → s ≡ t
one_part s t e = cc e

pub two_files : (dir : PurePath) → manifest_file dir ≢ graph_file dir
unfolding path
two_files dir e =
    differ "manifest.json" "graph.json" refl
      (one_part _ _ (child-parts dir (path "manifest.json") (path "graph.json") refl refl e))

module _ (floats : Floats) (above : String → String → Bool) (hexdigest : List ℕ → String)
    (show : Value → String) where
  pub build_manifest-graph_hash :
      (graph m : Value) (session : LocalSession) (prompt : String) (artifact : ArtifactRecord)
      → build_manifest floats above hexdigest show graph session prompt artifact ≡ ok m
      → get_item m "graph_hash" ≡ get_item graph "graph_hash"
  unfolding build_manifest get_item lookup
  build_manifest-graph_hash graph m session prompt artifact h =
      let (s, _, h1) =
        >>=-eq-ok
          (build_vector_snapshot floats above hexdigest show graph "report artifact complete") _
          h in
      let (g, e, h2) = >>=-eq-ok (get_item graph "graph_hash") _ h1 in
      let (t, _, h3) = >>=-eq-ok (token_hash hexdigest (tokenize_prompt prompt)) _ h2 in
      let (k, _, h4) = >>=-eq-ok (simulated_kv_hash hexdigest (tokenize_prompt prompt)) _ h3 in
      let (spans, _, h5) = >>=-eq-ok (get_item graph "kv_spans") _ h4 in
      let (audit, _, h6) = >>=-eq-ok (audit_tool_replay_safety graph) _ h5 in
      let (security, _, h7) = >>=-eq-ok (build_security_attestation hexdigest graph) _ h6 in
      subst (λ x. get_item x "graph_hash" ≡ get_item graph "graph_hash") (ok-injective _ m h7)
        (sym e)

  -- A package of the reference session, whose graph is the one that its manifest names, with the
  -- prompt of that session.
  pub record Whole (p : Package) : Type 0 where
    pub session_run : run_reference_session hexdigest show ≡ ok p.session
    pub verified :
        (do h ← get_item p.manifest "graph_hash"; verify_graph hexdigest p.graph h) ≡ ok tt
    pub resumable :
        reconstruct_prompt show p.graph
        ≡ reconstruct_prompt_from_messages show (said p.session.messages)

  build_package-Whole :
      (policy : ExportPolicy) (p : Package)
      → build_package floats above hexdigest show policy ≡ ok p
      → Whole p
  unfolding build_package
  build_package-Whole policy p h =
      let (session, ran, h1) = >>=-eq-ok (run_reference_session hexdigest show) _ h in
      let (prompt, _, h2) =
        >>=-eq-ok (reconstruct_prompt_from_messages show (said session.messages)) _ h1 in
      let artifact : ArtifactRecord =
        build_artifact_record_from_bytes hexdigest session.artifact_path session.artifact_bytes
          policy in
      let (graph, e, h3) = >>=-eq-ok (build_graph floats hexdigest session artifact prompt) _ h2 in
      let (m, d, h4) =
        >>=-eq-ok (build_manifest floats above hexdigest show graph session prompt artifact) _ h3 in
      let (g, built, verified, resumable) =
        build_graph-reconstruct floats hexdigest show session artifact prompt in
      let same : g ≡ graph = ok-injective _ _ (sym built ∙ e) in
      subst Whole (ok-injective _ p h4) (record {
        session_run = ran;
        verified = rw (build_manifest-graph_hash graph m session prompt artifact d) (
            subst (λ x. (do h ← get_item x "graph_hash"; verify_graph hexdigest x h) ≡ ok tt) same
              verified);
        resumable =
            subst
              (λ x.
                reconstruct_prompt show x
                ≡ reconstruct_prompt_from_messages show (said session.messages))
              same resumable;
      })

  -- If an export returns a manifest, then the package holds that manifest and a graph, printed as
  -- JSON; the graph passes the hash check against the hash that the manifest names, and the prompt that
  -- an import reconstructs from it is that of the messages that the reference session returned.
  pub export_session_writes :
      (dir : PurePath) (policy : ExportPolicy) (fs : Files) (m : Value)
      → (export_session floats above hexdigest show dir policy fs).0 ≡ ok m
      → (p : Package) × (p.manifest ≡ m)
        × Whole p
        × (read (manifest_file dir) (export_session floats above hexdigest show dir policy fs).1
            ≡ some (encode (dumps_indented 0 p.manifest <> "\n")))
        × (read (graph_file dir) (export_session floats above hexdigest show dir policy fs).1
            ≡ some (encode (dumps_indented 0 p.graph <> "\n")))
  unfolding export_session write_json
  export_session_writes dir policy fs m h =
      elim (Result-cases (build_package floats above hexdigest show policy)) [
        | inr (e, k) ↦ cc (rw k at h)
        | inl (p, k) ↦ rw k (
          p,
          ok-injective p.manifest m (rw k at h),
          build_package-Whole policy p k,
          read-write_self (manifest_file dir) _ _,
          read-write_ne (manifest_file dir) (graph_file dir) _ _ (two_files dir)
              ∙ read-write_self (graph_file dir) _ _,
        )
      ]
