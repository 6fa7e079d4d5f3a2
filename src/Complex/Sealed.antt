-- ===== src/Complex/Sealed.antt =====
-- The graph of the complex session.
use permeant_os.Prelude.{
  refl, ℕ, String, ◌≡◌, ◌∙◌, sym, ap, Bool, List, [], ◌∷◌, All, Bool-cases, inl, inr, subst,
  if◌then◌else◌,
}
use permeant_os.Py.Value.{Value, obj, str, list, is_str, is_str_iff}
use permeant_os.Py.Result.{ok, ◌>>=◌, >>=-eq-ok, ok-injective}
use permeant_os.Py.Dict.{get, get_or, get_item, set_item, lookup-insert, iter}
use permeant_os.Graph.{verify_graph}
use permeant_os.Artifacts.{ArtifactRecord}
use permeant_os.Embeddings.{Floats}
use permeant_os.VectorMemory.{ranked, build_vector_snapshot}
use permeant_os.Graph.Seal.{seal_sound}
use permeant_os.Complex.Nodes.{complex_edges}
use permeant_os.Complex.{
  describe_graph, additional_nodes, rest_of, extend_list, replace_results,
  extend_graph_for_complex_agent,
}

-- A retrieval node of kind vector has the expected results.
abbrev pub HasResults : Value → Value → Type 0
HasResults expected v =
    get v "type" ≡ ok (str "retrieval")
    → get v "retrieval_kind" ≡ ok (str "vector")
    → get_item v "results" ≡ ok expected

set_results : (v w x : Value) → set_item v "results" x ≡ ok w → get_item w "results" ≡ ok x
unfolding set_item get_item
set_results (obj fs) w x h =
    subst (λ (s : Value). get_item s "results" ≡ ok x) (ok-injective _ w h) (rw lookup-insert)
set_results _ w x h = cc h

-- the node that a round leaves
changed-HasResults :
    (expected v w t kind : Value)
    → get v "type" ≡ ok t
    → get v "retrieval_kind" ≡ ok kind
    → (if is_str t "retrieval"
        then (if is_str kind "vector" then set_item v "results" expected else ok v)
        else ok v)
      ≡ ok w
    → HasResults expected w
changed-HasResults expected v w t kind e d h = elim (Bool-cases (is_str t "retrieval")) [
  | inr n ↦
      let same : v ≡ w = ok-injective v w (rw n at h) in
      λ p q. cc (
        n,
        (is_str_iff t "retrieval").1 (ok-injective t _ (sym e ∙ ap (λ x. get x "type") same ∙ p)),
      )
  | inl y ↦ elim (Bool-cases (is_str kind "vector")) [
    | inl z ↦ λ p q. set_results v w expected (rw (y, z) at h)
    | inr n ↦
        let same : v ≡ w = ok-injective v w (rw (y, n) at h) in
        λ p q. cc (
          n,
          (is_str_iff kind "vector").1
              (ok-injective kind _ (sym d ∙ ap (λ x. get x "retrieval_kind") same ∙ q)),
        )
  ]
]

-- If the results are replaced in a list of nodes, then every retrieval node of kind vector in the new
-- list has the expected results.
pub replace_results-HasResults :
    (expected : Value) (nodes out : List Value)
    → replace_results expected nodes ≡ ok out
    → All (HasResults expected) out
unfolding replace_results
replace_results-HasResults expected [] out h =
    subst (All (HasResults expected)) (ok-injective [] out h) tt
replace_results-HasResults expected (v ∷ nodes) out h =
    let (t, e1, h1) = >>=-eq-ok (get v "type") _ h in
    let (kind, e2, h2) = >>=-eq-ok (get v "retrieval_kind") _ h1 in
    let (w, e3, h3) =
      >>=-eq-ok
        (if is_str t "retrieval"
          then (if is_str kind "vector" then set_item v "results" expected else ok v)
          else ok v)
        _ h2 in
    let (more, e4, h4) = >>=-eq-ok (replace_results expected nodes) _ h3 in
    subst (All (HasResults expected)) (ok-injective (w ∷ more) out h4) (
      changed-HasResults expected v w t kind e1 e2 e3,
      replace_results-HasResults expected nodes more e4,
    )

module _ (floats : Floats) (above : String → String → Bool) (hexdigest : List ℕ → String)
    (show : Value → String) where
  -- If a graph can be extended, then the extended graph passes the hash check against the hash that it
  -- carries.
  pub extend_graph-sealed :
      (graph extended : Value) (artifacts : List ArtifactRecord)
      → extend_graph_for_complex_agent floats above hexdigest show graph artifacts ≡ ok extended
      → (do h ← get_item extended "graph_hash"; verify_graph hexdigest extended h) ≡ ok tt
  unfolding extend_graph_for_complex_agent
  extend_graph-sealed graph extended artifacts h =
      let (a, _, h1) = >>=-eq-ok (describe_graph graph) _ h in
      let (b, _, h2) =
        >>=-eq-ok (additional_nodes floats above hexdigest show (rest_of artifacts)) _ h1 in
      let (c, _, h3) = >>=-eq-ok (extend_list a "nodes" b) _ h2 in
      let (d, _, h4) = >>=-eq-ok (extend_list c "edges" complex_edges) _ h3 in
      let (s, _, h5) =
        >>=-eq-ok (build_vector_snapshot floats above hexdigest show d "report artifact complete") _
          h4 in
      let (n, _, h6) = >>=-eq-ok (get_or d "nodes" (list [])) _ h5 in
      let (l, _, h7) = >>=-eq-ok (iter n) _ h6 in
      let (r, _, h8) = >>=-eq-ok (replace_results (list (ranked 1 s.results)) l) _ h7 in
      let (g, _, h9) = >>=-eq-ok (set_item d "nodes" (list r)) _ h8 in
      (seal_sound hexdigest "graph_id" g extended refl h9).0
