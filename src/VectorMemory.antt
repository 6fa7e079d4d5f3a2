-- ===== src/VectorMemory.antt =====
-- examples/agent-memory-graph/local_agent.py: `build_vector_snapshot` and `validate_vector_memory`.
pub mod Checks
pub mod Ranking
use permeant_os.Prelude.{
  ℕ, suc, ◌+◌, String, ◌<>◌, Bool, true, false, not, ◌&&◌, ◌||◌, List, [], ◌∷◌, ◌++◌, ◌==◌,
  if◌then◌else◌, Option, none, some,
}
use permeant_os.Py.Value.{
  Value, null, str, int, float, arr, obj, nil, dict, list, is_str, is_true, truthy, text_of,
}
use permeant_os.Py.Result.{
  Result, ok, raise, invalid, type_error, attribute_error, key_error, ◌>>=◌, ◌>>◌, reject_if,
  for_each,
}
use permeant_os.Py.Dict.{get, get_or, get_item, iter}
use permeant_os.Py.Equal.{py_eq, check_hashable}
use permeant_os.Py.Text.{encode, join, text_leb}
use permeant_os.Constants.{embedding_model, embedding_dim, vector_store_ref}
use permeant_os.Hashing.{sha256_bytes}
use permeant_os.Graph.{nodes_of_type}
use permeant_os.Security.{reject_node_if}
use permeant_os.Embeddings.{Floats, deterministic_embedding, embedding_hash, cosine_similarity}

-- a record of the snapshot
pub record Snapped : Type 0 where
  pub node_id : Value
  pub embedding : List String
  pub hash : String
  pub text_hash : Value

pub record Scored : Type 0 where
  pub node_id : Value
  pub score : String

pub record Snapshot : Type 0 where
  pub query_text : String
  pub query_embedding : List String
  pub records : List Snapped
  pub results : List Scored

-- `x < y` for ids, which are texts
unfoldable pub id_before : Value → Value → Result Bool
id_before (str s) (str t) = ok (not (text_leb t s))
id_before _ _ = raise type_error

-- `expected_results`, from a rank on
unfoldable pub ranked : ℕ → List Scored → List Value
ranked rank [] = []
ranked rank (r ∷ rs) =
    dict (("node_id", r.node_id) ∷ ("rank", int rank) ∷ ("score", float r.score) ∷ [])
    ∷ ranked (rank + 1) rs

-- The last entry for a key: what a dictionary comprehension keeps.
unfoldable pub last_entry {ℓ} :
    {A : Type ℓ} → (A → Result Value) → Value → List A → Option A → Result (Option A)
last_entry id k [] found = ok found
last_entry id k (x ∷ xs) found = do
  let hit = last_entry id k xs (some x)
  let miss = last_entry id k xs found
  i ← id x
  if py_eq i k then hit else miss

-- `d[key]` for such a dictionary
unfoldable pub entry_or {ℓ} : {A : Type ℓ} → Result (Option A) → Value → String → Result A
entry_or (raise e) k message = raise e
entry_or (ok none) k message = raise (invalid message (k ∷ []))
entry_or (ok (some x)) k message = ok x

unfoldable pub check_keys : List Value → Result (Unit {0})
check_keys nodes = for_each nodes (λ node. do id ← get_item node "id"; check_hashable id)

-- the fields of one result of a retrieval node
unfoldable pub retrieval_result : Value → Result Value
retrieval_result result = do
  id ← get_item result "node_id"
  rank ← get_item result "rank"
  score ← get result "score"
  ok (dict (("node_id", id) ∷ ("rank", rank) ∷ ("score", score) ∷ []))

unfoldable pub retrieval_results : List Value → Result (List Value)
unfolding retrieval_result
retrieval_results [] = ok []
retrieval_results (result ∷ results) = do
  let rest = retrieval_results results
  r ← retrieval_result result
  rs ← rest
  ok (r ∷ rs)

unfoldable pub check_retrieval : Value → Value → Result (Unit {0})
check_retrieval expected retrieval = do
  kind ← get retrieval "retrieval_kind"
  if is_str kind "vector"
      then (do
        results ← get_or retrieval "results" (arr nil)
        listed ← iter results
        found ← retrieval_results listed
        reject_node_if (not (py_eq (list found) expected)) retrieval
            "retrieval node {} does not match vector snapshot results")
      else ok tt

-- what the validation reports
pub data VectorReport : Type 0 where
  not_present : VectorReport
  rebind_required : Value → Value → VectorReport
  verified : Value → Value → Value → Value → Value → VectorReport

external_report : Value → Result VectorReport
external_report memory = do
  rebind ← get memory "rebind_required"
  reject_if (not (is_true rebind))
      (invalid "external vector memory must be explicitly marked rebind_required" [])
  ref ← get memory "vector_store_ref"
  model ← get memory "embedding_model"
  ok (rebind_required ref model)

verified_report : Value → Result VectorReport
verified_report memory = do
  ref ← get_item memory "vector_store_ref"
  model ← get_item memory "embedding_model"
  dim ← get_item memory "embedding_dim"
  hash ← get_item memory "query_hash"
  results ← get_item memory "expected_results"
  ok (verified ref model dim hash results)

-- the tests of the snapshot's header
unfoldable pub check_header : Value → Value → Result (Unit {0})
check_header memory mode = do
  reject_if (not (is_str mode "snapshot"))
      (invalid "unsupported vector memory mode: {}" (mode ∷ []))
  model ← get memory "embedding_model"
  reject_if (not (is_str model embedding_model))
      (invalid "vector memory embedding model mismatch" [])
  dim ← get memory "embedding_dim"
  reject_if (not (py_eq dim (int embedding_dim)))
      (invalid "vector memory embedding dimension mismatch" [])
  metric ← get memory "distance_metric"
  reject_if (not (is_str metric "cosine")) (invalid "vector memory distance metric mismatch" [])

-- `text.encode`, of an object that may be no text
query_of : Value → Result String
query_of (str s) = ok s
query_of _ = raise attribute_error

-- one record of the manifest against the snapshot, and against the memory node
unfoldable pub check_record : List Value → List Snapped → Value → Result (Unit {0})
check_record nodes records item = do
  id ← get item "node_id"
  check_hashable id
  expected ←
      entry_or (last_entry (λ (r : Snapped). ok r.node_id) id records none) id
        "vector snapshot references unknown memory node: {}"
  node ←
      entry_or (last_entry (λ n. get_item n "id") id nodes none) id
        "vector snapshot references unknown memory node: {}"
  stored ← get node "embedding_hash"
  reject_if (not (is_str stored expected.hash))
      (invalid "memory node embedding hash mismatch for {}" (id ∷ []))
  claimed ← get item "embedding_hash"
  reject_if (not (is_str claimed expected.hash))
      (invalid "vector embedding hash mismatch for {}" (id ∷ []))

-- `above x y` is `x > y` on floats
module _ (floats : Floats) (above : String → String → Bool) where
  -- whether a result stands before another: the higher score, then the lower id
  unfoldable pub precedes : Scored → Scored → Result Bool
  precedes r s =
      if above r.score s.score
      then ok true
      else if above s.score r.score
      then ok false
      else if py_eq r.node_id s.node_id
      then ok false
      else id_before r.node_id s.node_id

  unfoldable pub place_result : Scored → List Scored → Result (List Scored)
  place_result r [] = ok (r ∷ [])
  place_result r (s ∷ sorted) = do
    let rest = place_result r sorted
    before ← precedes r s
    if before then ok (r ∷ s ∷ sorted) else (do placed ← rest; ok (s ∷ placed))

  -- `sorted(results, key=…)`, by insertion
  unfoldable pub sort_results : List Scored → List Scored → Result (List Scored)
  unfolding place_result
  sort_results sorted [] = ok sorted
  sort_results sorted (r ∷ rs) = do placed ← place_result r sorted; sort_results placed rs

  unfoldable pub score_records : List String → List Snapped → List Scored
  score_records query [] = []
  score_records query (r ∷ rs) =
      record {
        node_id = r.node_id;
        score = floats.round8 (cosine_similarity floats query r.embedding);
      }
      ∷ score_records query rs

  module _ (hexdigest : List ℕ → String) (show : Value → String) where
    -- `str(value)` of the values that are true
    shown : List Value → List String
    shown [] = []
    shown (v ∷ vs) = let rest = shown vs in if truthy v then text_of show v ∷ rest else rest

    -- the text that a memory node stands for
    unfoldable pub memory_text : Value → Result String
    unfolding shown
    memory_text node = do
      subject ← get node "subject"
      predicate ← get node "predicate"
      object ← get node "object"
      ok (join " " (shown (subject ∷ predicate ∷ object ∷ [])))

    unfoldable pub snap : Value → Result Snapped
    snap node = do
      text ← memory_text node
      id ← get_item node "id"
      text_hash ← get node "text_hash"
      ok (record {
        node_id = id;
        embedding = deterministic_embedding floats text;
        hash = embedding_hash floats hexdigest (deterministic_embedding floats text);
        text_hash = text_hash;
      })

    unfoldable pub snap_all : List Value → Result (List Snapped)
    unfolding snap
    snap_all [] = ok []
    snap_all (node ∷ nodes) = do
      let rest = snap_all nodes
      model ← get node "embedding_model"
      if is_str model embedding_model then (do r ← snap node; rs ← rest; ok (r ∷ rs)) else rest

    unfoldable pub build_vector_snapshot : Value → String → Result Snapshot
    build_vector_snapshot graph query_text = do
      let query_embedding = deterministic_embedding floats query_text
      nodes ← nodes_of_type "memory" graph
      records ← snap_all nodes
      results ← sort_results [] (score_records query_embedding records)
      ok (record {
        query_text = query_text;
        query_embedding = query_embedding;
        records = records;
        results = results;
      })

    -- the tests of the snapshot's content
    unfoldable pub check_snapshot : Value → Value → Result (Unit {0})
    unfolding query_of
    check_snapshot graph memory = do
      query_text ← get_item memory "query_text"
      query ← query_of query_text
      expected ← build_vector_snapshot graph query
      nodes ← nodes_of_type "memory" graph
      check_keys nodes
      items ← get_or memory "records" (arr nil)
      listed ← iter items
      for_each listed (check_record nodes expected.records)
      results ← get memory "expected_results"
      reject_if (not (py_eq results (list (ranked 1 expected.results))))
          (invalid "vector retrieval results mismatch" [])
      retrievals ← nodes_of_type "retrieval" graph
      for_each retrievals (check_retrieval (list (ranked 1 expected.results)))

    unfoldable pub validate_vector_memory : Value → Value → Result VectorReport
    unfolding external_report verified_report
    validate_vector_memory graph manifest = do
      memory ← get manifest "vector_memory"
      if truthy memory
          then (do
            mode ← get memory "mode"
            if is_str mode "external_rebind" then external_report memory else (do
              check_header memory mode
              check_snapshot graph memory
              verified_report memory))
          else ok not_present
