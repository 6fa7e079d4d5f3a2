-- ===== src/ReturnHome/Proven.antt =====
-- What the evidence of a return home is to show.
use permeant_os.Prelude.{ℕ, String, ◌≡◌, true, List, Option, some, length}
use permeant_os.Py.Value.{Value, bool, str, arr, Items, cons, neg, int}
use permeant_os.Py.Result.{Result, ok}
use permeant_os.Py.Dict.{get, get_or, get_item}
use permeant_os.Py.Equal.{py_eq}
use permeant_os.Py.Text.{starts_with, remove_prefix}
use permeant_os.Py.Path.{PurePath}
use permeant_os.Hashing.{sha256_bytes}
use permeant_os.Graph.{node_by_id, verify_graph}
use permeant_os.Files.{Files, read}
use permeant_os.Resume.{report_hash}
use permeant_os.ReturnHome.Checks.{remote_artifact, Evidence, int_of}

-- A file has the digest, and the size that the report's entry lists.
pub record HasBytes (hexdigest : List ℕ → String) (parse_int : Value → Result Value)
    (artifact : Value) (fs : Files) (artifact_hash : String) (p : PurePath) : Type 0 where
  pub content : List ℕ
  pub found : read p fs ≡ some content
  pub digest : sha256_bytes hexdigest content ≡ artifact_hash
  pub size : Value
  pub size_field : get_or artifact "size_bytes" (neg 0) ≡ ok size
  pub size_listed : int_of parse_int size ≡ ok (int (length content))

module _ (hexdigest : List ℕ → String) where
  -- The report carries its own proof, says that the activity went on, and descends from the graph
  -- whose hash the manifest names.
  pub record ReportProven (manifest report original : Value) : Type 0 where
    pub proof : String
    pub proof_hash : report_hash hexdigest report ≡ ok proof
    pub proof_carried : get_item report "proof_hash" ≡ ok (str proof)
    pub continued : get_item report "status" ≡ ok (str "continued")
    pub active : get_item report "activity_continued" ≡ ok (bool true)
    pub named : get_item manifest "graph_hash" ≡ ok original
    pub pre : Value
    pub pre_field : get report "pre_resume_graph_hash" ≡ ok pre
    pub descends : py_eq pre original ≡ true

  -- The graph has the canonical hash that it carries, and that the report names.
  pub record GraphProven (graph report graph_hash : Value) : Type 0 where
    pub carried : get_item graph "graph_hash" ≡ ok graph_hash
    pub verified : verify_graph hexdigest graph graph_hash ≡ ok tt
    pub reported : get report "post_resume_graph_hash" ≡ ok graph_hash

  -- The artifact that the report lists first has a node with its digest, and its file, where one is
  -- given, has that digest and the listed size.
  pub record ArtifactProven (parse_int : Value → Result Value) (artifact_path : Option PurePath)
      (graph report : Value) (fs : Files) (artifact_hash : String) : Type 0 where
    pub artifact : Value
    pub others : Items
    pub listed : get report "written_artifacts" ≡ ok (arr (cons artifact others))
    pub digest : get_item artifact "sha256" ≡ ok (str artifact_hash)
    pub prefixed : starts_with artifact_hash "sha256:" ≡ true
    pub node : Value
    pub node_found : node_by_id graph remote_artifact ≡ ok node
    pub node_digest : get_item node "sha256" ≡ ok (str (remove_prefix artifact_hash "sha256:"))
    pub bytes :
        (p : PurePath)
        → artifact_path ≡ some p
        → HasBytes hexdigest parse_int artifact fs artifact_hash p

  -- The report, the graph and the artifact that come home are proven, each by the other.
  pub record Proven (parse_int : Value → Result Value) (artifact_path : Option PurePath)
      (manifest graph report : Value) (fs : Files) (e : Evidence) : Type 0 where
    pub same_graph : e.graph ≡ graph
    pub same_report : e.report ≡ report
    pub report_proven : ReportProven manifest report e.original_hash
    pub graph_proven : GraphProven graph report e.graph_hash
    pub artifact_proven : ArtifactProven parse_int artifact_path graph report fs e.artifact_hash
