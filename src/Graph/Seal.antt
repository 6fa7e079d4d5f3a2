-- ===== src/Graph/Seal.antt =====
-- `canonical_graph_hash` and `verify_graph`: which graphs the hash check accepts.
use permeant_os.Prelude.{◌==◌, false, ℕ, String, ◌≡◌, ◌↔◌, refl, List, arith, some, subst}
use permeant_os.Py.Value.{Value, null, str, obj, Fields, is_str_iff, is_str_self}
use permeant_os.Py.Result.{ok, ◌>>=◌, ok-injective}
use permeant_os.Py.Dict.{
  get_item, set_item, pop, insert, erase, lookup, lookup-insert, erase-insert, get_or, or_default,
}
use permeant_os.Hashing.{sha256_json}
use permeant_os.Graph.{canonical_graph_hash, seal, verify_graph}

module _ (hexdigest : List ℕ → String) where
  abbrev root : Fields → String
  root fs = sha256_json hexdigest (obj (erase "graph_hash" fs))

  verify_graph-eq-ok :
      (fs : Fields) (h : String)
      → root fs ≡ h
      → lookup "graph_hash" fs ≡ some (str h)
      → verify_graph hexdigest (obj fs) (str h) ≡ ok tt
  unfolding verify_graph get_or pop
  verify_graph-eq-ok fs h e l = rw (e, l, is_str_self h)

  -- What an accepted object shows.
  verify_graph_sound :
      (fs : Fields) (expected : Value)
      → verify_graph hexdigest (obj fs) expected ≡ ok tt
      → (expected ≡ str (root fs)) × (lookup "graph_hash" fs ≡ some (str (root fs)))
  unfolding verify_graph get_or pop
  verify_graph_sound fs expected h = ground (
    arith,
    is_str_iff expected (root fs),
    is_str_iff (or_default null (lookup "graph_hash" fs)) (root fs),
  )

  -- A graph that was sealed passes the hash check against the hash that the seal wrote into it,
  -- whatever the object held before, a stale hash included.
  pub verify_graph-seal :
      (fs : Fields)
      → (do
        sealed ← seal hexdigest (obj fs)
        h ← get_item sealed "graph_hash"
        verify_graph hexdigest sealed h)
        ≡ ok tt
  unfolding seal get_item pop set_item
  verify_graph-seal fs =
      let fs' : Fields = insert "graph_hash" (str (root fs)) fs in
      let found : lookup "graph_hash" fs' ≡ some (str (root fs)) = rw lookup-insert in
      rw found (verify_graph-eq-ok fs' (root fs) (rw erase-insert) found)

  -- The hash check accepts a graph exactly when it is an object whose canonical hash is both the
  -- expected value and the value of its own field `graph_hash`.
  pub verify_graph_iff :
      (graph expected : Value)
      → (verify_graph hexdigest graph expected ≡ ok tt) ↔ (
          (h : String) × (canonical_graph_hash hexdigest graph ≡ ok h)
          × (expected ≡ str h)
          × (get_item graph "graph_hash" ≡ ok (str h)))
  unfolding verify_graph canonical_graph_hash get_item pop
  verify_graph_iff (obj fs) expected = (
    λ h. let (e, l) = verify_graph_sound fs expected h in (root fs, refl, e, rw l),
    λ (h, c, e, l). rw e (verify_graph-eq-ok fs h (ground arith) (ground arith)),
  )
  verify_graph_iff _ expected = (λ h. cc, λ (h, c, e, l). cc)

  -- A sealed graph passes the hash check, and the seal keeps what stood under another key.
  pub seal_sound :
      (k : String) (graph sealed : Value)
      → ("graph_hash" == k) ≡ false
      → seal hexdigest graph ≡ ok sealed
      → ((do h ← get_item sealed "graph_hash"; verify_graph hexdigest sealed h) ≡ ok tt)
        × (get_item sealed k ≡ get_item graph k)
  unfolding seal canonical_graph_hash pop set_item get_item
  seal_sound k (obj fs) sealed n h =
      subst
        (λ s.
          ((do h ← get_item s "graph_hash"; verify_graph hexdigest s h) ≡ ok tt)
          × (get_item s k ≡ get_item (obj fs) k))
        (ok-injective _ sealed h) (verify_graph-seal fs, rw (lookup-insert, n))
  seal_sound k _ sealed n h = cc h
