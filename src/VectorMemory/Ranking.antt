-- ===== src/VectorMemory/Ranking.antt =====
-- The order of the expected results.
use permeant_os.Prelude.{
  ℕ, refl, arith, String, ◌≡◌, ◌∙◌, ap, Bool, true, false, List, [], ◌∷◌, ◌++◌, ◌⊎◌, inl, inr,
  Bool-cases, subst,
}
use mathlib.Core.List.{append-nil, Perm, perm_middle}
use mathlib.Core.List.Perm
use permeant_os.Py.Result.{ok, >>=-eq-ok, ok-injective}
use permeant_os.Py.Value.{Value, str}
use permeant_os.Py.Equal.{py_eq}
use permeant_os.Py.Text.{text_leb}
use permeant_os.Graph.{nodes_of_type}
use permeant_os.Embeddings.{Floats, deterministic_embedding}
use permeant_os.VectorMemory.{
  Scored, Snapshot, id_before, precedes, place_result, sort_results, score_records, snap_all,
  build_vector_snapshot,
}

pub text_leb_total : (s t : String) → text_leb t s ≡ false → text_leb s t ≡ true
unfolding text_leb
text_leb_total String.[] t h = refl
text_leb_total (String.◌∷◌ c s) String.[] h = cc h
text_leb_total (String.◌∷◌ c s) (String.◌∷◌ d t) h = ground (arith, text_leb_total s t)

-- An id that is equal to another, or is a text that does not stand behind it in the order of texts.
abbrev pub NotAfter : Value → Value → Type 0
NotAfter a b =
    (py_eq b a ≡ true) ⊎ ((s t : String) × (a ≡ str s) × (b ≡ str t) × (text_leb s t ≡ true))

id_before-NotAfter : (a b : Value) → id_before a b ≡ ok true → NotAfter a b
unfolding id_before
id_before-NotAfter (str s) (str t) h = elim (Bool-cases (text_leb t s)) [
  | inl e ↦ cc (rw e at h)
  | inr n ↦ inr (s, t, refl, refl, text_leb_total s t n)
]
id_before-NotAfter _ _ h = cc h

not_before-NotAfter : (b a : Value) → id_before b a ≡ ok false → NotAfter a b
unfolding id_before
not_before-NotAfter (str t) (str s) h = elim (Bool-cases (text_leb s t)) [
  | inl e ↦ inr (s, t, refl, refl, e)
  | inr n ↦ cc (rw n at h)
]
not_before-NotAfter _ _ h = cc h

module _ (floats : Floats) (above : String → String → Bool) where
  -- The order puts the one before the other, or does not put the other before the one.
  abbrev Stands : Scored → Scored → Type 0
  Stands r s = (precedes floats above r s ≡ ok true) ⊎ (precedes floats above s r ≡ ok false)

  abbrev Leads : Scored → List Scored → Type 0
  Leads r [] = Unit
  Leads r (s ∷ ss) = Stands r s

  -- Each result stands before the next.
  abbrev Ordered : List Scored → Type 0
  Ordered [] = Unit
  Ordered (r ∷ rs) = Leads r rs × Ordered rs

  -- What placing a result into a list makes of the list.
  abbrev Placed : Scored → List Scored → List Scored → Type 0
  Placed r sorted out =
      Perm (r ∷ sorted) out
      × ((p : Scored) → Stands p r → Leads p sorted → Leads p out)
      × (Ordered sorted → Ordered out)

  -- where it goes behind the first
  Placed-behind :
      (r s : Scored) (sorted placed : List Scored)
      → precedes floats above r s ≡ ok false
      → Placed r sorted placed
      → Placed r (s ∷ sorted) (s ∷ placed)
  Placed-behind r s sorted placed e (same, leads, ordered) = (
    Perm.trans (Perm.swap s r sorted) (Perm.cons s same),
    λ p q l. l,
    λ (l, o). (leads s (inr e) l, ordered o),
  )

  place_result-Placed :
      (r : Scored) (sorted out : List Scored)
      → place_result floats above r sorted ≡ ok out
      → Placed r sorted out
  unfolding place_result
  place_result-Placed r [] out h =
      subst (Placed r []) (ok-injective _ out h) (Perm.refl _, λ p s l. s, λ u. (tt, tt))
  place_result-Placed r (s ∷ sorted) out h =
      let (before, e, h1) = >>=-eq-ok (precedes floats above r s) _ h in
      elim (Bool-cases before) [
        | inl b ↦
            subst (Placed r (s ∷ sorted)) (ok-injective (r ∷ s ∷ sorted) out (rw b at h1))
              (Perm.refl _, λ p q l. q, λ o. (inl (e ∙ ap ok b), o))
        | inr b ↦
            let (placed, q, h2) =
              >>=-eq-ok (place_result floats above r sorted) (λ ss. ok (s ∷ ss)) (rw b at h1) in
            subst (Placed r (s ∷ sorted)) (ok-injective (s ∷ placed) out h2) (
              Placed-behind r s sorted placed (e ∙ ap ok b) (place_result-Placed r sorted placed q))
      ]

  -- Sorting: if the results can be sorted into a list that is in order, then what comes out has the elements of
  -- both, each as often, and each stands before the next: the order puts it there, or does not put the
  -- next before it.
  sort_results-Ordered :
      (sorted results out : List Scored)
      → Ordered sorted
      → sort_results floats above sorted results ≡ ok out
      → Perm (sorted ++ results) out × Ordered out
  unfolding sort_results
  sort_results-Ordered sorted [] out o h =
      subst (λ l. Perm (sorted ++ []) l × Ordered l) (ok-injective sorted out h)
        (rw (append-nil sorted) (Perm.refl sorted), o)
  sort_results-Ordered sorted (r ∷ results) out o h =
      let (placed, q, h1) = >>=-eq-ok (place_result floats above r sorted) _ h in
      let (same, _, ordered) = place_result-Placed r sorted placed q in
      let (all, in_order) = sort_results-Ordered placed results out (ordered o) h1 in
      (
        Perm.trans (perm_middle sorted results)
            (Perm.trans (Perm.append same (Perm.refl results)) all),
        in_order,
      )

-- Of two results the one may be ranked before the other: its score is not lower, and if it is not
-- higher either, its id does not stand behind the other's.
abbrev pub Outranks : (String → String → Bool) → Scored → Scored → Type 0
Outranks above r s =
    (above s.score r.score ≡ false) × (above r.score s.score ≡ false → NotAfter r.node_id s.node_id)

-- Each result may be ranked before the next.
abbrev pub Ranked : (String → String → Bool) → List Scored → Type 0
Ranked above [] = Unit
Ranked above (r ∷ []) = Unit
Ranked above (r ∷ s ∷ rs) = Outranks above r s × Ranked above (s ∷ rs)

module _ (floats : Floats) (above : String → String → Bool)
    (asymmetric : (x y : String) → above x y ≡ true → above y x ≡ false) where
  precedes-Outranks : (r s : Scored) → precedes floats above r s ≡ ok true → Outranks above r s
  unfolding precedes
  precedes-Outranks r s h = elim (Bool-cases (above r.score s.score)) [
    | inl higher ↦ (asymmetric r.score s.score higher, λ e. cc (higher, e))
    | inr level ↦ elim (Bool-cases (above s.score r.score)) [
      | inl lower ↦ cc (rw (level, lower) at h)
      | inr same ↦ (
        same,
        λ e. elim (Bool-cases (py_eq r.node_id s.node_id)) [
          | inl equal ↦ cc (rw (level, same, equal) at h)
          | inr other ↦ id_before-NotAfter r.node_id s.node_id (rw (level, same, other) at h)
        ],
      )
    ]
  ]

  not_precedes-Outranks : (r s : Scored) → precedes floats above s r ≡ ok false → Outranks above r s
  unfolding precedes
  not_precedes-Outranks r s h = elim (Bool-cases (above s.score r.score)) [
    | inl higher ↦ cc (rw higher at h)
    | inr level ↦ (
      level,
      λ same. elim (Bool-cases (py_eq s.node_id r.node_id)) [
        | inl equal ↦ inl equal
        | inr other ↦ not_before-NotAfter s.node_id r.node_id (rw (level, same, other) at h)
      ],
    )
  ]

  Ordered-Ranked : (rs : List Scored) → Ordered floats above rs → Ranked above rs
  Ordered-Ranked [] o = tt
  Ordered-Ranked (r ∷ []) o = tt
  Ordered-Ranked (r ∷ s ∷ rs) (first, o) = (
    elim first [ inl e ↦ precedes-Outranks r s e | inr e ↦ not_precedes-Outranks r s e ],
    Ordered-Ranked (s ∷ rs) o,
  )

  -- If no two floats are each above the other, the results of a snapshot are its records, each as often
  -- as it is there and with its similarity to the query, by falling score, and those of one score by
  -- rising id.
  pub build_vector_snapshot-Ranked :
      (hexdigest : List ℕ → String) (show : Value → String) (graph : Value) (query : String)
      (s : Snapshot)
      → build_vector_snapshot floats above hexdigest show graph query ≡ ok s
      → Perm (score_records floats above (deterministic_embedding floats query) s.records) s.results
        × Ranked above s.results
  unfolding build_vector_snapshot
  build_vector_snapshot-Ranked hexdigest show graph query s h =
      let embedding = deterministic_embedding floats query in
      let (nodes, _, h1) = >>=-eq-ok (nodes_of_type "memory" graph) _ h in
      let (records, _, h2) = >>=-eq-ok (snap_all floats above hexdigest show nodes) _ h1 in
      let (results, e, h3) =
        >>=-eq-ok (sort_results floats above [] (score_records floats above embedding records)) _
          h2 in
      let (same, ordered) =
        sort_results-Ordered floats above [] (score_records floats above embedding records) results
          tt e in
      subst
        (λ (x : Snapshot).
          Perm (score_records floats above embedding x.records) x.results × Ranked above x.results)
        (ok-injective _ s h3) (same, Ordered-Ranked results ordered)
