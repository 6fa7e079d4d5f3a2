-- ===== src/Tests/Memories.antt =====
-- The theorems on vector memory, at a graph of one memory node.
use permeant_os.Prelude.{String, Bool, not, false, arith, ◌<>◌, [], ◌∷◌, ◌≡◌, refl, true}
use mathlib.Core.List.{Perm}
use permeant_os.Py.Value.{Value, str, int, float, dict, list, truthy}
use permeant_os.Py.Result.{Result, ok, raise}
use permeant_os.Py.Dict.{get, get_or, get_item, lookup, iter}
use permeant_os.Py.Equal.{py_eq, check_hashable}
use permeant_os.Py.Text.{text_leb, decimal, encode, join}
use permeant_os.Py.Json.{dumps}
use permeant_os.Constants.{embedding_model, vector_store_ref}
use permeant_os.Graph.{nodes_of_type}
use permeant_os.Hashing.{sha256_json}
use permeant_os.Embeddings.{deterministic_embedding, embedding_hash, cosine_similarity}
use permeant_os.VectorMemory.{
  VectorReport, verified, Snapshot, sort_results, precedes, id_before, validate_vector_memory,
  check_header, check_snapshot, check_record, check_retrieval, check_keys, build_vector_snapshot,
  snap_all, memory_text, score_records, ranked, last_entry, entry_or,
}
use permeant_os.VectorMemory.Checks.{Consistent, validate_vector_memory_sound}
use permeant_os.VectorMemory.Ranking.{Ranked, text_leb_total, build_vector_snapshot-Ranked}
use permeant_os.Tests.{digest, floats, above, show, known}

-- The order of texts, turned round.
abbrev later : String → String → Bool
later x y = not (text_leb x y)

-- No two texts are each behind the other.
later-asymmetric : (x y : String) → later x y ≡ true → later y x ≡ false
later-asymmetric x y h = let e : text_leb x y ≡ false = ground arith in rw (text_leb_total y x e)

-- two nodes of one text, the later id first
abbrev two_memories : Value
two_memories = dict (
    (
      "nodes",
      list (
          dict (
            ("id", str "memory:b")
            ∷ ("type", str "memory")
            ∷ ("embedding_model", str embedding_model)
            ∷ ("subject", str "report")
            ∷ [])
          ∷ dict (
              ("id", str "memory:a")
              ∷ ("type", str "memory")
              ∷ ("embedding_model", str embedding_model)
              ∷ ("subject", str "report")
              ∷ [])
          ∷ []),
    )
    ∷ [])

abbrev or_snapshot : Result Snapshot → Snapshot
or_snapshot (ok s) = s
or_snapshot (raise e) = record { query_text = ""; query_embedding = []; records = []; results = [] }

abbrev snapshot : Snapshot
snapshot = or_snapshot (build_vector_snapshot floats later digest show two_memories "report")

build_vector_snapshot-Ranked_example :
    Perm
      (score_records floats later (deterministic_embedding floats "report") snapshot.records)
      snapshot.results
    × Ranked later snapshot.results
unfolding build_vector_snapshot snap_all memory_text score_records sort_results precedes py_eq
    id_before text_leb nodes_of_type get_or get_item lookup iter truthy embedding_hash sha256_json
    deterministic_embedding cosine_similarity ◌<>◌ decimal encode dumps join
build_vector_snapshot-Ranked_example =
    build_vector_snapshot-Ranked floats later later-asymmetric digest show two_memories "report"
      snapshot refl

abbrev graph : Value
graph = dict (
    (
      "nodes",
      list (
          dict (
            ("id", str "memory:a")
            ∷ ("type", str "memory")
            ∷ ("embedding_model", str embedding_model)
            ∷ ("embedding_hash", str known)
            ∷ ("subject", str "artifact:report")
            ∷ [])
          ∷ []),
    )
    ∷ [])

abbrev results : Value
results =
    list (dict (("node_id", str "memory:a") ∷ ("rank", int 1) ∷ ("score", float "1.0") ∷ []) ∷ [])

abbrev memory : Value
memory = dict (
    ("mode", str "snapshot")
    ∷ ("vector_store_ref", str vector_store_ref)
    ∷ ("embedding_model", str embedding_model)
    ∷ ("embedding_dim", int 8)
    ∷ ("distance_metric", str "cosine")
    ∷ ("query_text", str "report")
    ∷ ("query_hash", str known)
    ∷ (
      "records",
      list (dict (("node_id", str "memory:a") ∷ ("embedding_hash", str known) ∷ []) ∷ []),
    )
    ∷ ("expected_results", results)
    ∷ [])

abbrev manifest : Value
manifest = dict (("vector_memory", memory) ∷ [])

abbrev report : VectorReport
report = verified (str vector_store_ref) (str embedding_model) (int 8) (str known) results

validates : validate_vector_memory floats above digest show graph manifest ≡ ok report
unfolding validate_vector_memory check_header check_snapshot check_record check_retrieval check_keys
    build_vector_snapshot snap_all memory_text score_records ranked last_entry entry_or get_or
    get_item lookup iter py_eq check_hashable nodes_of_type truthy sort_results embedding_hash
    sha256_json deterministic_embedding cosine_similarity ◌<>◌ decimal encode dumps join
validates = refl

holds_memory : get manifest "vector_memory" ≡ ok memory
unfolding get_or lookup
holds_memory = refl

is_given : truthy memory ≡ true
unfolding truthy
is_given = refl

is_snapshot : get memory "mode" ≡ ok (str "snapshot")
unfolding get_or lookup
is_snapshot = refl

validate_vector_memory_sound_example : Consistent floats above digest show graph memory
validate_vector_memory_sound_example =
    validate_vector_memory_sound floats above digest show graph manifest memory report holds_memory
      is_given is_snapshot validates
