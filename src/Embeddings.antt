-- ===== src/Embeddings.antt =====
-- examples/agent-memory-graph/local_agent.py: the embeddings of texts, and the retrieval record that
-- compares two. A float is its `repr`; the arithmetic of floats is a parameter.
use permeant_os.Prelude.{
  ℕ, zero, suc, ◌+◌, ◌%◌, String, List, [], ◌∷◌, map, if◌then◌else◌, ◌==◌, ◌||◌,
}
use permeant_os.Py.Value.{str, int, float, dict, list, fields, Fields}
use permeant_os.Py.Text.{encode}
use permeant_os.Constants.{agent_id, embedding_dim}
use permeant_os.Hashing.{sha256_bytes, sha256_json}

-- The float operations that the source uses, on `repr`s: `x + y`, `x * y`, `x / y`, `x ** 0.5`,
-- `round(x, 8)`, and the conversion of an integer.
pub record Floats : Type 0 where
  pub add : String → String → String
  pub multiply : String → String → String
  pub divide : String → String → String
  pub square_root : String → String
  pub round8 : String → String
  pub of_int : ℕ → String

unfoldable pub replicate : ℕ → String → List String
replicate zero x = []
replicate (suc n) x = x ∷ replicate n x

module _ (floats : Floats) where
  -- `buckets[index] += amount`
  unfoldable pub add_at : ℕ → String → List String → List String
  add_at i amount [] = []
  add_at zero amount (x ∷ xs) = floats.add x amount ∷ xs
  add_at (suc i) amount (x ∷ xs) = x ∷ add_at i amount xs

  unfoldable pub fill_buckets : ℕ → List ℕ → List String → List String
  unfolding add_at
  fill_buckets index [] buckets = buckets
  fill_buckets index (byte ∷ bytes) buckets =
      fill_buckets (index + 1) bytes
        (add_at (index % embedding_dim) (floats.divide (floats.of_int (byte % 31)) "31.0") buckets)

  -- `sum(values)`, from a total on
  unfoldable pub sum_onto : String → List String → String
  sum_onto total [] = total
  sum_onto total (x ∷ xs) = sum_onto (floats.add total x) xs

  unfoldable pub normalized : List String → String → List String
  normalized buckets magnitude =
      if magnitude == "0.0" || magnitude == "-0.0"
      then buckets
      else map (λ value. floats.round8 (floats.divide value magnitude)) buckets

  unfoldable pub deterministic_embedding : String → List String
  unfolding replicate fill_buckets sum_onto normalized
  deterministic_embedding text =
      let buckets = fill_buckets 0 (encode text) (replicate embedding_dim "0.0") in
      normalized buckets
        (floats.square_root (sum_onto "0.0" (map (λ value. floats.multiply value value) buckets)))

  products : List String → List String → List String
  products [] right = []
  products (x ∷ left) [] = []
  products (x ∷ left) (y ∷ right) = floats.multiply x y ∷ products left right

  unfoldable pub cosine_similarity : List String → List String → String
  unfolding products sum_onto
  cosine_similarity left right = sum_onto "0.0" (products left right)

  module _ (hexdigest : List ℕ → String) where
    unfoldable pub embedding_hash : List String → String
    embedding_hash vector =
        sha256_json hexdigest (list (map (λ value. float (floats.round8 value)) vector))

    unfoldable pub vector_retrieval_payload : String → Fields
    vector_retrieval_payload query_text =
        let memory_text : String = "artifact:report status complete" in
        let score = floats.round8 (
          cosine_similarity (deterministic_embedding query_text)
            (deterministic_embedding memory_text)) in
        fields (
          ("actor_id", str agent_id)
          ∷ ("memory_scope", str "thread")
          ∷ ("memory_tier", str "recall")
          ∷ ("sensitivity", str "internal")
          ∷ ("retention", str "session")
          ∷ ("redaction_state", str "none")
          ∷ ("query_hash", str (sha256_bytes hexdigest (encode query_text)))
          ∷ ("retrieval_kind", str "vector")
          ∷ ("planner_profile", str "continuity_aware")
          ∷ ("policy_profile", str "autonomous_agent")
          ∷ ("scorer_kind", str "semantic")
          ∷ ("selected_channels", list (str "semantic" ∷ []))
          ∷ ("candidate_sources", list (str "semantic_neighbor" ∷ []))
          ∷ (
            "planner_stages",
            list (str "embed_query" ∷ str "score_snapshot" ∷ str "rank_results" ∷ []),
          )
          ∷ ("graph_expansion_max_hops", int 0)
          ∷ ("historical_mode", str "current_only")
          ∷ (
            "results",
            list (
                (dict (
                  ("node_id", str "memory:report-fact")
                  ∷ ("rank", int 1)
                  ∷ ("score", float score)
                  ∷ ("score_kind", str "cosine")
                  ∷ (
                    "score_breakdown",
                    list (
                        (dict (
                          ("name", str "semantic")
                          ∷ ("value", float score)
                          ∷ ("weight", float "1.0")
                          ∷ []))
                        ∷ []),
                  )
                  ∷ ("candidate_source", str "semantic_neighbor")
                  ∷ ("snippet_hash", str (sha256_bytes hexdigest (encode memory_text)))
                  ∷ []))
                ∷ []),
          )
          ∷ ("selection_policy", str "top_vector_score")
          ∷ [])
