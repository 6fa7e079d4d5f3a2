-- ===== src/Import.antt =====
-- examples/agent-memory-graph/local_agent.py: `import_session`, in three stages: the checks of the
-- package, which only read, the restoration of its artifacts, and the checks of the continuation.
-- `loads` is the parser of JSON: what `json.loads` makes of the bytes of a file.
pub mod Accepted
pub mod Latest
pub mod Reported
pub mod Effects
use permeant_os.Prelude.{ℕ, String, Bool, not, List, [], ◌∷◌, Option, none, some, if◌then◌else◌}
use permeant_os.Py.Value.{Value, str, arr, obj, text_of, is_str, to_list}
use permeant_os.Py.Result.{
  Result, ok, raise, invalid, index_error, key_error, ◌>>=◌, ◌>>◌, reject_if,
}
use permeant_os.Py.Dict.{get_item, iter}
use permeant_os.Py.Equal.{py_eq, check_hashable}
use permeant_os.Py.Text.{encode}
use permeant_os.Py.Path.{PurePath, child, path}
use permeant_os.Hashing.{sha256_bytes}
use permeant_os.Graph.{verify_graph}
use permeant_os.Audit.{Entry, audit_tool_replay_safety, reject_unsafe_tool_replay}
use permeant_os.Paths.{safe_package_relative_path}
use permeant_os.Security.{Report, validate_security_policy}
use permeant_os.Files.{Files, open_read}
use permeant_os.Artifacts.{Verified, Restored, verify_artifacts, restore_artifacts}
use permeant_os.Prompt.{
  tokenize_prompt, token_hash, simulated_kv_hash, deterministic_continue, reconstruct_prompt,
}
use permeant_os.Embeddings.{Floats}
use permeant_os.VectorMemory.{VectorReport, validate_vector_memory}

-- What the first stage has read and reported.
pub record Checked : Type 0 where
  pub manifest : Value
  pub graph : Value
  pub security : Report
  pub side_effect_audit : List Entry
  pub vector_memory : VectorReport
  pub verified_artifacts : List Verified

pub record Continued : Type 0 where
  pub prompt_byte_hash : String
  pub prompt_token_hash : String
  pub kv_hash : String
  pub deterministic_next_response : String

pub record ImportReport : Type 0 where
  pub graph_hash : Value
  pub artifact_hashes : List (Value × Value)
  pub artifact_store : Value
  pub checked : Checked
  pub restored_workspace : PurePath
  pub restore_report : List Restored
  pub continued : Continued

first_of : List Value → Result Value
first_of [] = raise index_error
first_of (v ∷ vs) = ok v

-- `value[0]`
unfoldable pub first_item : Value → Result Value
unfolding first_of
first_item (arr vs) = first_of (to_list vs)
first_item (obj fs) = raise (key_error "0")
first_item v = do chars ← iter v; first_of chars

-- `d[key] = value`: an equal key stays in its place
unfoldable pub put_hash : Value → Value → List (Value × Value) → List (Value × Value)
put_hash p sha [] = (p, sha) ∷ []
put_hash p sha ((q, old) ∷ hashes) =
    let rest = put_hash p sha hashes in if py_eq q p then (q, sha) ∷ hashes else (q, old) ∷ rest

-- the entries of `{artifact["path"]: artifact["sha256"] for artifact in …}`, on those before
unfoldable pub hashes_of : List Value → List (Value × Value) → Result (List (Value × Value))
unfolding put_hash
hashes_of [] hashes = ok hashes
hashes_of (a ∷ artifacts) hashes = do
  p ← get_item a "path"
  sha ← get_item a "sha256"
  check_hashable p
  hashes_of artifacts (put_hash p sha hashes)

-- the last return
unfoldable pub build_report : Checked → PurePath → List Restored → Continued → Result ImportReport
build_report c workspace_dir restored continued = do
  graph_hash ← get_item c.graph "graph_hash"
  artifacts ← get_item c.manifest "artifacts"
  listed ← iter artifacts
  hashes ← hashes_of listed []
  store ← get_item c.manifest "artifact_store"
  ok (record {
    graph_hash = graph_hash;
    artifact_hashes = hashes;
    artifact_store = store;
    checked = c;
    restored_workspace = workspace_dir;
    restore_report = restored;
    continued = continued;
  })

abbrev pub workspace_or : PurePath → Option PurePath → PurePath
workspace_or package_dir (some workspace_dir) = workspace_dir
workspace_or package_dir none = child package_dir (path "restored-workspace")

-- the tests of the hashes against the manifest
unfoldable pub check_hashes : Value → String → String → String → Result (Unit {0})
check_hashes manifest byte_hash prompt_token_hash kv_hash = do
  prompt ← get_item manifest "prompt"
  b ← get_item prompt "byte_hash"
  reject_if (not (is_str b byte_hash)) (invalid "prompt byte hash mismatch" [])
  t ← get_item prompt "token_hash"
  reject_if (not (is_str t prompt_token_hash)) (invalid "prompt token hash mismatch" [])
  kv ← get_item manifest "kv"
  k ← get_item kv "kv_hash"
  reject_if (not (is_str k kv_hash)) (invalid "simulated KV hash mismatch" [])

module _ (loads : List ℕ → Result Value) where
  unfoldable pub read_json : PurePath → Files → Result Value
  read_json p fs = do bytes ← open_read p fs; loads bytes

module _ (loads : List ℕ → Result Value) (floats : Floats) (above : String → String → Bool)
    (hexdigest : List ℕ → String) (show : Value → String) where
  unfoldable pub check_package : PurePath → String → Files → Result Checked
  check_package package_dir target_runtime fs = do
    manifest ← read_json loads (child package_dir (path "manifest.json")) fs
    graph_path ← get_item manifest "graph_path"
    relative ← safe_package_relative_path graph_path
    graph ← read_json loads (child package_dir relative) fs
    expected_hash ← get_item manifest "graph_hash"
    verify_graph hexdigest graph expected_hash
    security ← validate_security_policy hexdigest graph manifest target_runtime
    audit ← audit_tool_replay_safety graph
    reject_unsafe_tool_replay audit
    vector_memory ← validate_vector_memory floats above hexdigest show graph manifest
    verified ← verify_artifacts hexdigest package_dir manifest fs
    ok (record {
      manifest = manifest;
      graph = graph;
      security = security;
      side_effect_audit = audit;
      vector_memory = vector_memory;
      verified_artifacts = verified;
    })

  unfoldable pub check_continuation : Value → Value → Result Continued
  check_continuation graph manifest = do
    prompt ← reconstruct_prompt show graph
    let byte_hash = sha256_bytes hexdigest (encode prompt)
    prompt_token_hash ← token_hash hexdigest (tokenize_prompt prompt)
    kv_hash ← simulated_kv_hash hexdigest (tokenize_prompt prompt)
    check_hashes manifest byte_hash prompt_token_hash kv_hash
    artifacts ← get_item manifest "artifacts"
    first ← first_item artifacts
    artifact_hash ← get_item first "sha256"
    let continuation = deterministic_continue hexdigest prompt (text_of show artifact_hash)
    expected ← get_item manifest "deterministic_next_response"
    reject_if (not (is_str expected continuation))
        (invalid "deterministic continuation mismatch" [])
    ok (record {
      prompt_byte_hash = byte_hash;
      prompt_token_hash = prompt_token_hash;
      kv_hash = kv_hash;
      deterministic_next_response = continuation;
    })

  -- what follows the restoration
  unfoldable pub conclude : Checked → PurePath → Result (List Restored) → Result ImportReport
  conclude c workspace_dir restored = do
    report ← restored
    continued ← check_continuation c.graph c.manifest
    build_report c workspace_dir report continued

  unfoldable pub restore_checked :
      Result Checked → PurePath → PurePath → Files → Result ImportReport × Files
  restore_checked (raise e) package_dir workspace_dir fs = (raise e, fs)
  restore_checked (ok c) package_dir workspace_dir fs =
      let (restored, fs') = restore_artifacts hexdigest package_dir workspace_dir c.manifest fs in
      (conclude c workspace_dir restored, fs')

  unfoldable pub import_session :
      PurePath → Option PurePath → String → Files → Result ImportReport × Files
  unfolding restore_checked
  import_session package_dir workspace_dir target_runtime fs =
      restore_checked (check_package package_dir target_runtime fs) package_dir
        (workspace_or package_dir workspace_dir) fs
