-- ===== src/KvCache/Written.antt =====
-- What `_write_combined_cache` leaves in the cache: at the indices that `_combined_target_indices`
-- gives for a point, the key and the value that the source has there.
use permeant_os.Prelude.{
  ℕ, ◌<◌, ◌≡◌, ◌≢◌, ◌⊎◌, inl, inr, refl, List, Option, arith, sym, ◌∙◌, subst, Bool-cases, false,
}
use permeant_os.Py.Result.{Result, ok, >>=-eq-ok, ok-injective}
use permeant_os.KvCache.{Index, Tensor, Source, Layout, key_value}
use permeant_os.KvCache.Loops.{for_range2, for_range2_keeps, for_range2_establishes}
use permeant_os.KvCache.Places.{
  Point, Distinct, Fits, indices, same_index_iff, Apart, indices-own, indices-Apart,
}
use permeant_os.KvCache.Write.{same_index, in_bounds, put, put_pair, value_at}

module _ {E : Type 0} where
  -- What was written is read, and the other elements are what they were.
  pub put-value_at :
      (index : Index) (x : E) (c c' : Tensor E)
      → put index x c ≡ ok c'
      → (c'.shape ≡ c.shape)
        × (value_at index c' ≡ ok x)
        × ((other : Index) → index ≢ other → value_at other c' ≡ value_at other c)
  unfolding put value_at
  put-value_at index x c c' h = elim (Bool-cases (in_bounds index c.shape)) [
    | inr out ↦ cc (rw out at h)
    | inl inside ↦
        subst
          (λ (t : Tensor E).
            (t.shape ≡ c.shape)
            × (value_at index t ≡ ok x)
            × ((other : Index) → index ≢ other → value_at other t ≡ value_at other c))
          (ok-injective _ c' (rw inside at h))
          (
            refl,
            rw (inside, (same_index_iff index index).1 refl),
            λ other n.
                let apart : same_index index other ≡ false =
                  ground (arith, same_index_iff index other) in
                rw apart,
          )
  ]

  put_pair-value_at :
      (k v : Index) (kv : E × E) (c c' : Tensor E)
      → k ≢ v
      → put_pair k v kv c ≡ ok c'
      → (c'.shape ≡ c.shape)
        × (value_at k c' ≡ ok kv.0)
        × (value_at v c' ≡ ok kv.1)
        × ((other : Index) → k ≢ other → v ≢ other → value_at other c' ≡ value_at other c)
  unfolding put_pair
  put_pair-value_at k v (x, y) c c' n h =
      let (t, e1, e2) = >>=-eq-ok (put k x c) _ h in
      let (same, here, keep) = put-value_at k x c t e1 in
      let (same', there, keep') = put-value_at v y t c' e2 in
      (
        same' ∙ same,
        keep' k (λ e. n (sym e)) ∙ here,
        there,
        λ other a b. keep' other b ∙ keep other a,
      )

  module _ (source : Source E) (layout : Layout) (ids : Option (List ℕ)) where
    -- The cache holds the key and the value of a point at its indices.
    pub record Holds (p : Point) (c : Tensor E) : Type 0 where
      pub pair : E × E
      pub source_pair : key_value source p.block p.head p.dim p.token ≡ ok pair
      pub places : Index × Index
      pub target : indices layout p ids ≡ ok places
      pub key : value_at places.0 c ≡ ok pair.0
      pub value : value_at places.1 c ≡ ok pair.1

    -- A step that writes one point, and nothing else.
    abbrev pub Writes : Point → Tensor E → Tensor E → Type 0
    Writes p c c' =
        (pair : E × E) × (key_value source p.block p.head p.dim p.token ≡ ok pair)
        × ((places : Index × Index) × (indices layout p ids ≡ ok places)
            × (put_pair places.0 places.1 pair c ≡ ok c'))

    Writes-Holds : (p : Point) (c c' : Tensor E) → Writes p c c' → Holds p c'
    Writes-Holds p c c' (pair, e, (places, k, h)) =
        let (_, key, value, _) =
          put_pair-value_at places.0 places.1 pair c c' (indices-own layout ids p places k) h in
        record {
          pair = pair;
          source_pair = e;
          places = places;
          target = k;
          key = key;
          value = value;
        }

    pub Writes-shape : (p : Point) (c c' : Tensor E) → Writes p c c' → c'.shape ≡ c.shape
    Writes-shape p c c' (pair, e, (places, k, h)) =
        (put_pair-value_at places.0 places.1 pair c c' (indices-own layout ids p places k) h).0

    module _ (block_size : ℕ) (fits : Fits layout block_size) (distinct : Distinct ids) where
      Writes-keeps :
          (p q : Point) (c c' : Tensor E)
          → p.token < block_size
          → q.token < block_size
          → p ≢ q
          → Writes p c c'
          → Holds q c
          → Holds q c'
      Writes-keeps p q c c' lp lq n (pair, e, (places, k, h)) held =
          let (_, _, _, keep) =
            put_pair-value_at places.0 places.1 pair c c' (indices-own layout ids p places k) h in
          let apart : Apart places held.places =
            indices-Apart layout block_size ids p q places held.places fits distinct lp lq k
              held.target n in
          record {
            pair = held.pair;
            source_pair = held.source_pair;
            places = held.places;
            target = held.target;
            key = keep held.places.0 apart.keys apart.value_key ∙ held.key;
            value = keep held.places.1 apart.key_value apart.values ∙ held.value;
          }

      -- A loop over two of the indices of a point.
      module _ (n m : ℕ) (point : ℕ → ℕ → Point) (body : ℕ → ℕ → Tensor E → Result (Tensor E))
          (inside : (i j : ℕ) → i < n → j < m → (point i j).token < block_size)
          (writes : (i j : ℕ) (c c' : Tensor E)
            → body i j c ≡ ok c'
            → Writes (point i j) c c') where
        pub inner_keeps :
            (q : Point) (c c' : Tensor E)
            → q.token < block_size
            → ((i j : ℕ) → point i j ≢ q)
            → for_range2 n m body c ≡ ok c'
            → Holds q c
            → Holds q c'
        inner_keeps q c c' lq other = for_range2_keeps n m body (Holds q) c c' (λ i j t t' hi hj h.
            Writes-keeps (point i j) q t t' (inside i j hi hj) lq (other i j) (writes i j t t' h))

        pub inner_Holds :
            (c c' : Tensor E)
            → ((i j k l : ℕ) → ((i ≢ k) ⊎ (j ≢ l)) → point i j ≢ point k l)
            → for_range2 n m body c ≡ ok c'
            → (i j : ℕ) → i < n
            → j < m
            → Holds (point i j) c'
        inner_Holds c c' apart =
            for_range2_establishes n m body (λ i j. Holds (point i j)) c c'
              (λ i j t t' hi hj h. Writes-Holds (point i j) t t' (writes i j t t' h))
              (λ i j k l t t' hi hj hk hl ne h.
                Writes-keeps (point i j) (point k l) t t' (inside i j hi hj) (inside k l hk hl)
                  (apart i j k l ne) (writes i j t t' h))
