-- ===== src/ReturnHome/Sound.antt =====
-- What the evidence shows that `return_home_after_target_resume` accepts.
use permeant_os.Files.Streaming.{file_sha256_and_size_inv}
use permeant_os.Prelude.{
  refl, subst, ℕ, String, ◌≡◌, true, not, ◌||◌, List, Option, some, arith, ap, sym, ◌∙◌, ◌==◌,
  eq_iff,
}
use permeant_os.Py.Value.{
  Value, bool, str, arr, obj, Items, cons, is_str, is_true, is_str_iff, neg, int,
}
use permeant_os.Py.Result.{Result, ok, reject_if, reject_if-eq-ok, >>=-eq-ok, ok-injective}
use permeant_os.Py.Dict.{get-str, get, get_or, get_item}
use permeant_os.Py.Equal.{py_eq, py_eq-str}
use permeant_os.Py.Text.{starts_with, remove_prefix}
use permeant_os.Py.Path.{PurePath}
use permeant_os.Graph.{canonical_graph_hash, node_by_id}
use permeant_os.Graph.Seal.{verify_graph_iff}
use permeant_os.Files.{Files, file_sha256_and_size}
use permeant_os.Security.Tests.{text_known, of_not}
use permeant_os.Resume.{verify_resume_report_proof, report_hash}
use permeant_os.ReturnHome.Checks.{
  remote_artifact, check_report, check_graph, is_int, first_written, artifact_hash_of, check_bytes,
  check_artifact_evidence, Evidence, check_evidence, int_of,
}
use permeant_os.ReturnHome.Proven.{HasBytes, ReportProven, GraphProven, ArtifactProven, Proven}

get-true :
    (v x : Value) (k : String) → get v k ≡ ok x → is_true x ≡ true → get_item v k ≡ ok (bool true)
unfolding get_or get_item
get-true (obj fs) x k h t = ground arith
get-true _ x k h t = cc h

is_int-eq : (v : Value) (n : ℕ) → is_int v n ≡ true → v ≡ int n
is_int-eq (int m) n h = ground arith
is_int-eq _ n h = cc h

first_written-eq-ok :
    (written artifact : Value)
    → first_written written ≡ ok artifact
    → (others : Items) × (written ≡ arr (cons artifact others))
unfolding first_written
first_written-eq-ok (arr (cons v vs)) artifact h =
    (vs, ap (λ x. arr (cons x vs)) (ok-injective v artifact h))
first_written-eq-ok _ artifact h = cc h

artifact_hash_of-eq-ok :
    (v : Value) (hash : String)
    → artifact_hash_of v ≡ ok hash
    → (v ≡ str hash) × (starts_with hash "sha256:" ≡ true)
unfolding artifact_hash_of
artifact_hash_of-eq-ok (str s) hash h =
    let (_, t, e) = >>=-eq-ok (reject_if (not (starts_with s "sha256:")) _) _ h in
    let same : s ≡ hash = ok-injective s hash e in
    (ap str same, ap (λ x. starts_with x "sha256:") (sym same) ∙ of_not (reject_if-eq-ok _ _ t))
artifact_hash_of-eq-ok _ hash h = cc h

module _ (hexdigest : List ℕ → String) where
  check_report_sound :
      (manifest report original : Value)
      → check_report hexdigest manifest report ≡ ok original
      → ReportProven hexdigest manifest report original
  unfolding check_report verify_resume_report_proof
  check_report_sound manifest report original h =
      let (_, v, h1) = >>=-eq-ok (verify_resume_report_proof hexdigest report) _ h in
      let (proof, v1, v2) = >>=-eq-ok (report_hash hexdigest report) _ v in
      let (p, v3, v4) = >>=-eq-ok (get report "proof_hash") _ v2 in
      let (s, e1, h2) = >>=-eq-ok (get report "status") _ h1 in
      let (a, e2, h3) = >>=-eq-ok (get report "activity_continued") _ h2 in
      let (_, t1, h4) =
        >>=-eq-ok (reject_if (not (is_str s "continued") || not (is_true a)) _) _ h3 in
      let off = reject_if-eq-ok _ _ t1 in
      let (pre, e3, h5) = >>=-eq-ok (get report "pre_resume_graph_hash") _ h4 in
      let (o, e4, h6) = >>=-eq-ok (get_item manifest "graph_hash") _ h5 in
      let (_, t2, h7) = >>=-eq-ok (reject_if (not (py_eq pre o)) _) _ h6 in
      let same : o ≡ original = ok-injective o original h7 in
      record {
        proof = proof;
        proof_hash = v1;
        proof_carried = get-str report "proof_hash" proof (v3 ∙ ap ok (text_known p proof _ v4));
        continued =
            get-str report "status" "continued"
              (e1 ∙ ap ok ((is_str_iff s "continued").0 (ground arith)));
        active = get-true report a "activity_continued" e2 (ground arith);
        named = e4 ∙ ap ok same;
        pre = pre;
        pre_field = e3;
        descends = ap (py_eq pre) (sym same) ∙ of_not (reject_if-eq-ok _ _ t2);
      }

  check_graph_sound :
      (graph report graph_hash : Value)
      → check_graph hexdigest graph report ≡ ok graph_hash
      → GraphProven hexdigest graph report graph_hash
  unfolding check_graph
  check_graph_sound graph report graph_hash h =
      let (c, e1, h1) = >>=-eq-ok (get graph "graph_hash") _ h in
      let (actual, e2, h2) = >>=-eq-ok (canonical_graph_hash hexdigest graph) _ h1 in
      let (_, t1, h3) = >>=-eq-ok (reject_if (not (is_str c actual)) _) _ h2 in
      let (post, e3, h4) = >>=-eq-ok (get report "post_resume_graph_hash") _ h3 in
      let (g, e4, h5) = >>=-eq-ok (get_item graph "graph_hash") _ h4 in
      let (_, t2, h6) = >>=-eq-ok (reject_if (not (py_eq post g)) _) _ h5 in
      let carried = get-str graph "graph_hash" actual (e1 ∙ ap ok (text_known c actual _ t1)) in
      let text : graph_hash ≡ str actual =
        sym (ok-injective g graph_hash h6) ∙ ok-injective _ _ (sym e4 ∙ carried) in
      let same : g ≡ str actual = ok-injective _ _ (sym e4 ∙ carried) in
      record {
        carried = carried ∙ ap ok (sym text);
        verified = (verify_graph_iff hexdigest graph graph_hash).1 (actual, e2, text, carried);
        reported =
            e3
            ∙ ap ok (
                py_eq-str post actual (ap (py_eq post) (sym same) ∙ of_not (reject_if-eq-ok _ _ t2))
                ∙ sym text);
      }

  module _ (parse_int : Value → Result Value) where
    check_bytes_sound :
        (p : PurePath) (artifact : Value) (artifact_hash : String) (fs : Files)
        → check_bytes hexdigest parse_int (some p) artifact artifact_hash fs ≡ ok tt
        → HasBytes hexdigest parse_int artifact fs artifact_hash p
    unfolding check_bytes
    check_bytes_sound p artifact artifact_hash fs h =
        let (r, e1, h1) = >>=-eq-ok (file_sha256_and_size hexdigest p fs) _ h in
        let (content, found, q) = file_sha256_and_size_inv hexdigest p fs r e1 in
        let (_, t1, h2) = >>=-eq-ok (reject_if (not (r.0 == artifact_hash)) _) _ h1 in
        let (listed, e2, h3) = >>=-eq-ok (get_or artifact "size_bytes" (neg 0)) _ h2 in
        let (size, e3, t2) = >>=-eq-ok (int_of parse_int listed) _ h3 in
        record {
          content = content;
          found = found;
          digest =
              sym (ap (λ (x : String × ℕ). x.0) q)
              ∙ (eq_iff r.0 artifact_hash).0 (of_not (reject_if-eq-ok _ _ t1));
          size = listed;
          size_field = e2;
          size_listed =
              e3
              ∙ ap ok (
                  is_int-eq size r.1 (of_not (reject_if-eq-ok _ _ t2))
                  ∙ ap (λ (x : String × ℕ). int x.1) q);
        }

    check_artifact_evidence_sound :
        (artifact_path : Option PurePath) (graph report : Value) (fs : Files) (hash : String)
        → check_artifact_evidence hexdigest parse_int artifact_path graph report fs ≡ ok hash
        → ArtifactProven hexdigest parse_int artifact_path graph report fs hash
    unfolding check_artifact_evidence
    check_artifact_evidence_sound artifact_path graph report fs hash h =
        let (written, e1, h1) = >>=-eq-ok (get report "written_artifacts") _ h in
        let (artifact, e2, h2) = >>=-eq-ok (first_written written) _ h1 in
        let (sha, e3, h3) = >>=-eq-ok (get artifact "sha256") _ h2 in
        let (found, e4, h4) = >>=-eq-ok (artifact_hash_of sha) _ h3 in
        let (node, e5, h5) = >>=-eq-ok (node_by_id graph remote_artifact) _ h4 in
        let (node_hash, e6, h6) = >>=-eq-ok (get node "sha256") _ h5 in
        let (_, t, h7) =
          >>=-eq-ok (reject_if (not (is_str node_hash (remove_prefix found "sha256:"))) _) _ h6 in
        let (_, b, h8) =
          >>=-eq-ok (check_bytes hexdigest parse_int artifact_path artifact found fs) _ h7 in
        let (others, list) = first_written-eq-ok written artifact e2 in
        let (text, prefixed) = artifact_hash_of-eq-ok sha found e4 in
        subst (ArtifactProven hexdigest parse_int artifact_path graph report fs)
          (ok-injective found hash h8)
          (record {
            artifact = artifact;
            others = others;
            listed = e1 ∙ ap ok list;
            digest = get-str artifact "sha256" found (e3 ∙ ap ok text);
            prefixed = prefixed;
            node = node;
            node_found = e5;
            node_digest =
                get-str node "sha256" (remove_prefix found "sha256:")
                  (e6 ∙ ap ok (text_known node_hash (remove_prefix found "sha256:") _ t));
            bytes = λ p e.
                check_bytes_sound p artifact found fs
                  (subst (λ x. check_bytes hexdigest parse_int x artifact found fs ≡ ok tt) e b);
          })

    pub check_evidence_sound :
        (artifact_path : Option PurePath) (manifest graph report : Value) (fs : Files)
        (e : Evidence)
        → check_evidence hexdigest parse_int artifact_path manifest graph report fs ≡ ok e
        → Proven hexdigest parse_int artifact_path manifest graph report fs e
    unfolding check_evidence
    check_evidence_sound artifact_path manifest graph report fs e h =
        let (o, e1, h1) = >>=-eq-ok (check_report hexdigest manifest report) _ h in
        let (g, e2, h2) = >>=-eq-ok (check_graph hexdigest graph report) _ h1 in
        let (a, e3, h3) =
          >>=-eq-ok (check_artifact_evidence hexdigest parse_int artifact_path graph report fs) _
            h2 in
        subst (Proven hexdigest parse_int artifact_path manifest graph report fs)
          (ok-injective _ e h3)
          (record {
            same_graph = refl;
            same_report = refl;
            report_proven = check_report_sound manifest report o e1;
            graph_proven = check_graph_sound graph report g e2;
            artifact_proven = check_artifact_evidence_sound artifact_path graph report fs a e3;
          })
