-- ===== src/ReturnHome/Checks.antt =====
-- examples/agent-memory-graph/local_agent.py: what `return_home_after_target_resume` checks of the
-- report and the graph that come back. `parse_int` is what `int` makes of a float or a text.
use permeant_os.Prelude.{
  ℕ, String, Bool, true, false, not, ◌||◌, List, ◌==◌, eqb, Option, none, some,
}
use permeant_os.Py.Value.{Value, null, bool, int, neg, float, str, arr, obj, cons, is_str, is_true}
use permeant_os.Py.Result.{Result, ok, raise, invalid, type_error, ◌>>=◌, ◌>>◌, reject_if}
use permeant_os.Py.Dict.{get, get_or, get_item}
use permeant_os.Py.Equal.{py_eq}
use permeant_os.Py.Text.{starts_with, remove_prefix}
use permeant_os.Py.Path.{PurePath}
use permeant_os.Graph.{canonical_graph_hash, node_by_id}
use permeant_os.Files.{Files, file_sha256_and_size}
use permeant_os.Resume.{verify_resume_report_proof}

-- What the checks have read, and the manifest's hash of the graph that left.
pub record Evidence : Type 0 where
  pub original_hash : Value
  pub graph : Value
  pub report : Value
  pub graph_hash : Value
  pub artifact_hash : String

abbrev pub remote_artifact : String
remote_artifact = "artifact:publish-announcement:post-import"

-- `int(value)`
unfoldable pub int_of : (Value → Result Value) → Value → Result Value
int_of parse_int null = raise type_error
int_of parse_int (bool true) = ok (int 1)
int_of parse_int (bool false) = ok (int 0)
int_of parse_int (int n) = ok (int n)
int_of parse_int (neg n) = ok (neg n)
int_of parse_int (float r) = parse_int (float r)
int_of parse_int (str s) = parse_int (str s)
int_of parse_int (arr vs) = raise type_error
int_of parse_int (obj fs) = raise type_error

-- `value == n`, of a value that `int` has made
abbrev pub is_int : Value → ℕ → Bool
is_int (int m) n = eqb m n
is_int _ n = false

-- `written_artifacts[0]`, of a list that is not empty
unfoldable pub first_written : Value → Result Value
first_written (arr (cons v vs)) = ok v
first_written _ =
    raise (invalid "target resume report does not include written artifact evidence" List.[])

unfoldable pub artifact_hash_of : Value → Result String
artifact_hash_of (str s) = do
  reject_if (not (starts_with s "sha256:"))
      (invalid "target written artifact hash is invalid" List.[])
  ok s
artifact_hash_of _ = raise (invalid "target written artifact hash is invalid" List.[])

module _ (hexdigest : List ℕ → String) where
  -- the bytes of the artifact, where their path is given
  unfoldable pub check_bytes :
      (Value → Result Value) → Option PurePath → Value → String → Files → Result (Unit {0})
  check_bytes parse_int none artifact artifact_hash fs = ok tt
  check_bytes parse_int (some p) artifact artifact_hash fs = do
    (actual_hash, actual_size) ← file_sha256_and_size hexdigest p fs
    reject_if (not (actual_hash == artifact_hash))
        (invalid "target artifact bytes do not match target report hash" List.[])
    listed ← get_or artifact "size_bytes" (neg 0)
    size ← int_of parse_int listed
    reject_if (not (is_int size actual_size))
        (invalid "target artifact size does not match target report" List.[])

  -- the report's proof, its state, and its descent from the graph that left
  unfoldable pub check_report : Value → Value → Result Value
  check_report manifest report = do
    verify_resume_report_proof hexdigest report
    status ← get report "status"
    continued ← get report "activity_continued"
    reject_if (not (is_str status "continued") || not (is_true continued))
        (invalid "target resume report did not record continued activity" List.[])
    pre ← get report "pre_resume_graph_hash"
    original_hash ← get_item manifest "graph_hash"
    reject_if (not (py_eq pre original_hash))
        (invalid "target resume report does not descend from the original graph" List.[])
    ok original_hash

  -- the graph's own hash, and the report's hash of it
  unfoldable pub check_graph : Value → Value → Result Value
  check_graph graph report = do
    carried ← get graph "graph_hash"
    actual ← canonical_graph_hash hexdigest graph
    reject_if (not (is_str carried actual)) (invalid "target resumed graph hash is invalid" List.[])
    post ← get report "post_resume_graph_hash"
    graph_hash ← get_item graph "graph_hash"
    reject_if (not (py_eq post graph_hash))
        (invalid "target resume report does not match target resumed graph" List.[])
    ok graph_hash

  -- the artifact that the report lists first, and its node in the graph
  unfoldable pub check_artifact_evidence :
      (Value → Result Value) → Option PurePath → Value → Value → Files → Result String
  check_artifact_evidence parse_int artifact_path graph report fs = do
    written ← get report "written_artifacts"
    artifact ← first_written written
    sha ← get artifact "sha256"
    artifact_hash ← artifact_hash_of sha
    node ← node_by_id graph remote_artifact
    node_hash ← get node "sha256"
    reject_if (not (is_str node_hash (remove_prefix artifact_hash "sha256:")))
        (invalid "target graph artifact node does not match target report" List.[])
    check_bytes parse_int artifact_path artifact artifact_hash fs
    ok artifact_hash

  unfoldable pub check_evidence :
      (Value → Result Value) → Option PurePath → Value → Value → Value → Files → Result Evidence
  check_evidence parse_int artifact_path manifest graph report fs = do
    original_hash ← check_report manifest report
    graph_hash ← check_graph graph report
    artifact_hash ← check_artifact_evidence parse_int artifact_path graph report fs
    ok (record {
      original_hash = original_hash;
      graph = graph;
      report = report;
      graph_hash = graph_hash;
      artifact_hash = artifact_hash;
    })
