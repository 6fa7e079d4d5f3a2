-- ===== src/VectorMemory/Checks.antt =====
-- What `validate_vector_memory` guarantees of a snapshot that it accepts.
use permeant_os.Prelude.{
  ℕ, String, ◌≡◌, sym, ◌∙◌, ap, Bool, true, not, List, All, some, none, Option,
}
use permeant_os.Py.Value.{Value, str, int, arr, nil, list, is_str, is_str_iff, truthy}
use permeant_os.Py.Result.{
  Result, ok, raise, reject_if, reject_if-eq-ok, >>=-eq-ok, ok-injective, for_each,
}
use permeant_os.Py.Dict.{get, get_or, get_item, iter}
use permeant_os.Py.Equal.{py_eq, check_hashable}
use permeant_os.Constants.{embedding_model, embedding_dim}
use permeant_os.Graph.{nodes_of_type}
use permeant_os.Embeddings.{Floats}
use permeant_os.Security.Tests.{reject_node_if-eq-ok, of_not, text_known, All-map, for_each-eq-ok}
use permeant_os.VectorMemory.{
  Snapped, Snapshot, check_header, check_record, check_retrieval, build_vector_snapshot, ranked,
  retrieval_results, entry_or, last_entry, query_of, check_keys, check_snapshot, VectorReport,
  validate_vector_memory,
}

-- The header names the embedding model, the dimension and the metric of the program.
pub record Headed (memory : Value) : Type 0 where
  pub model : get memory "embedding_model" ≡ ok (str embedding_model)
  pub dim : Value
  pub dim_field : get memory "embedding_dim" ≡ ok dim
  pub dim_known : py_eq dim (int embedding_dim) ≡ true
  pub metric : get memory "distance_metric" ≡ ok (str "cosine")

check_header_sound : (memory mode : Value) → check_header memory mode ≡ ok tt → Headed memory
unfolding check_header
check_header_sound memory mode h =
    let (_, _, h1) = >>=-eq-ok (reject_if (not (is_str mode "snapshot")) _) _ h in
    let (m, e1, h2) = >>=-eq-ok (get memory "embedding_model") _ h1 in
    let (_, p1, h3) = >>=-eq-ok (reject_if (not (is_str m embedding_model)) _) _ h2 in
    let (d, e2, h4) = >>=-eq-ok (get memory "embedding_dim") _ h3 in
    let (_, p2, h5) = >>=-eq-ok (reject_if (not (py_eq d (int embedding_dim))) _) _ h4 in
    let (c, e3, h6) = >>=-eq-ok (get memory "distance_metric") _ h5 in
    record {
      model = e1 ∙ ap ok (text_known m _ _ p1);
      dim = d;
      dim_field = e2;
      dim_known = of_not (reject_if-eq-ok _ _ p2);
      metric = e3 ∙ ap ok (text_known c _ _ h6);
    }

entry_or-eq-ok {ℓ} :
    {A : Type ℓ} (r : Result (Option A)) (k : Value) (message : String) (x : A)
    → entry_or r k message ≡ ok x
    → r ≡ ok (some x)
unfolding entry_or
entry_or-eq-ok (raise e) k message x h = cc
entry_or-eq-ok (ok none) k message x h = cc
entry_or-eq-ok (ok (some y)) k message x h = cc (ok-injective y x h)

query_of-eq-ok : (v : Value) (query : String) → query_of v ≡ ok query → v ≡ str query
unfolding query_of
query_of-eq-ok (str s) query h = ap str (ok-injective s query h)
query_of-eq-ok _ query h = cc

-- A record of the manifest, and the memory node that it names, carry the hash of the recomputed
-- embedding.
pub record Embedded (nodes : List Value) (records : List Snapped) (item : Value) : Type 0 where
  pub id : Value
  pub id_field : get item "node_id" ≡ ok id
  pub expected : Snapped
  pub recomputed : last_entry (λ (r : Snapped). ok r.node_id) id records none ≡ ok (some expected)
  pub node : Value
  pub memory_node : last_entry (λ n. get_item n "id") id nodes none ≡ ok (some node)
  pub stored : get node "embedding_hash" ≡ ok (str expected.hash)
  pub claimed : get item "embedding_hash" ≡ ok (str expected.hash)

-- A retrieval node of kind vector has exactly the expected results.
abbrev pub Retrieved : Value → Value → Type 0
Retrieved expected retrieval =
    get retrieval "retrieval_kind" ≡ ok (str "vector")
    → (results : Value) × (get_or retrieval "results" (arr nil) ≡ ok results)
      × ((listed : List Value) × (iter results ≡ ok listed)
          × ((found : List Value) × (retrieval_results listed ≡ ok found)
              × (py_eq (list found) expected ≡ true)))

check_retrieval_sound :
    (expected retrieval : Value)
    → check_retrieval expected retrieval ≡ ok tt
    → Retrieved expected retrieval
unfolding check_retrieval
check_retrieval_sound expected retrieval h k =
    let (kind, e, h1) = >>=-eq-ok (get retrieval "retrieval_kind") _ h in
    let vector : is_str kind "vector" ≡ true =
      (is_str_iff kind "vector").1 (ok-injective _ _ (sym e ∙ k)) in
    let (results, e1, h2) = >>=-eq-ok (get_or retrieval "results" (arr nil)) _ (rw vector at h1) in
    let (listed, e2, h3) = >>=-eq-ok (iter results) _ h2 in
    let (found, e3, h4) = >>=-eq-ok (retrieval_results listed) _ h3 in
    (results, e1, (listed, e2, (found, e3, of_not (reject_node_if-eq-ok _ retrieval _ h4))))

check_record_sound :
    (nodes : List Value) (records : List Snapped) (item : Value)
    → check_record nodes records item ≡ ok tt
    → Embedded nodes records item
unfolding check_record
check_record_sound nodes records item h =
    let (id, e1, h1) = >>=-eq-ok (get item "node_id") _ h in
    let (_, _, h2) = >>=-eq-ok (check_hashable id) _ h1 in
    let (expected, e2, h3) =
      >>=-eq-ok (entry_or (last_entry (λ (r : Snapped). ok r.node_id) id records none) id _) _ h2 in
    let (node, e3, h4) =
      >>=-eq-ok (entry_or (last_entry (λ n. get_item n "id") id nodes none) id _) _ h3 in
    let (stored, e4, h5) = >>=-eq-ok (get node "embedding_hash") _ h4 in
    let (_, p1, h6) = >>=-eq-ok (reject_if (not (is_str stored expected.hash)) _) _ h5 in
    let (claimed, e5, h7) = >>=-eq-ok (get item "embedding_hash") _ h6 in
    record {
      id = id;
      id_field = e1;
      expected = expected;
      recomputed = entry_or-eq-ok _ id _ expected e2;
      node = node;
      memory_node = entry_or-eq-ok _ id _ node e3;
      stored = e4 ∙ ap ok (text_known stored _ _ p1);
      claimed = e5 ∙ ap ok (text_known claimed _ _ h7);
    }

module _ (floats : Floats) (above : String → String → Bool) (hexdigest : List ℕ → String)
    (show : Value → String) where
  -- A snapshot that agrees with the graph.
  pub record Consistent (graph memory : Value) : Type 0 where
    pub headed : Headed memory
    pub query : String
    pub query_field : get_item memory "query_text" ≡ ok (str query)
    pub expected : Snapshot
    pub recomputed : build_vector_snapshot floats above hexdigest show graph query ≡ ok expected
    pub nodes : List Value
    pub memory_nodes : nodes_of_type "memory" graph ≡ ok nodes
    pub items : Value
    pub items_field : get_or memory "records" (arr nil) ≡ ok items
    pub listed : List Value
    pub items_listed : iter items ≡ ok listed
    pub embedded : All (Embedded nodes expected.records) listed
    pub results : Value
    pub results_field : get memory "expected_results" ≡ ok results
    pub same_results : py_eq results (list (ranked 1 expected.results)) ≡ true
    pub retrievals : List Value
    pub retrieval_nodes : nodes_of_type "retrieval" graph ≡ ok retrievals
    pub retrieved : All (Retrieved (list (ranked 1 expected.results))) retrievals

  check_snapshot_sound :
      (graph memory : Value)
      → check_snapshot floats above hexdigest show graph memory ≡ ok tt
      → Headed memory
      → Consistent graph memory
  unfolding check_snapshot
  check_snapshot_sound graph memory h headed =
      let (t, e1, h1) = >>=-eq-ok (get_item memory "query_text") _ h in
      let (query, e2, h2) = >>=-eq-ok (query_of t) _ h1 in
      let (expected, e3, h3) =
        >>=-eq-ok (build_vector_snapshot floats above hexdigest show graph query) _ h2 in
      let (nodes, e4, h4) = >>=-eq-ok (nodes_of_type "memory" graph) _ h3 in
      let (_, _, h5) = >>=-eq-ok (check_keys nodes) _ h4 in
      let (items, e5, h6) = >>=-eq-ok (get_or memory "records" (arr nil)) _ h5 in
      let (listed, e6, h7) = >>=-eq-ok (iter items) _ h6 in
      let (_, e7, h8) = >>=-eq-ok (for_each listed (check_record nodes expected.records)) _ h7 in
      let (results, e8, h9) = >>=-eq-ok (get memory "expected_results") _ h8 in
      let (_, p, h10) =
        >>=-eq-ok (reject_if (not (py_eq results (list (ranked 1 expected.results)))) _) _ h9 in
      let (retrievals, e9, e10) = >>=-eq-ok (nodes_of_type "retrieval" graph) _ h10 in
      record {
        headed = headed;
        query = query;
        query_field = e1 ∙ ap ok (query_of-eq-ok t query e2);
        expected = expected;
        recomputed = e3;
        nodes = nodes;
        memory_nodes = e4;
        items = items;
        items_field = e5;
        listed = listed;
        items_listed = e6;
        embedded =
            All-map listed (check_record_sound nodes expected.records)
              (for_each-eq-ok listed (check_record nodes expected.records) e7);
        results = results;
        results_field = e8;
        same_results = of_not (reject_if-eq-ok _ _ p);
        retrievals = retrievals;
        retrieval_nodes = e9;
        retrieved =
            All-map retrievals (check_retrieval_sound (list (ranked 1 expected.results)))
              (for_each-eq-ok retrievals (check_retrieval (list (ranked 1 expected.results))) e10);
      }

  -- If a manifest has a vector memory of mode snapshot and the validation returns, then the memory's
  -- header is the program's; the snapshot of the graph's memory nodes can be recomputed for its query;
  -- every record of the memory, and the node that it names, carry the recomputed embedding's hash; and
  -- its expected results, and those of every retrieval node of kind vector, are the recomputed ones.
  pub validate_vector_memory_sound :
      (graph manifest memory : Value) (r : VectorReport)
      → get manifest "vector_memory" ≡ ok memory
      → truthy memory ≡ true
      → get memory "mode" ≡ ok (str "snapshot")
      → validate_vector_memory floats above hexdigest show graph manifest ≡ ok r
      → Consistent graph memory
  unfolding validate_vector_memory
  validate_vector_memory_sound graph manifest memory r f t m h =
      let inner = rw (f, t, m) at h in
      let (_, e, h1) = >>=-eq-ok (check_header memory (str "snapshot")) _ inner in
      let (_, e2, _) = >>=-eq-ok (check_snapshot floats above hexdigest show graph memory) _ h1 in
      check_snapshot_sound graph memory e2 (check_header_sound memory (str "snapshot") e)
