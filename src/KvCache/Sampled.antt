-- ===== src/KvCache/Sampled.antt =====
-- What the samples show of a cache that was written.
use permeant_os.Prelude.{
  ℕ, zero, suc, ◌<◌, ◌≡◌, ◌≢◌, refl, ap, ◌∙◌, true, ◌++◌, List, [], ◌∷◌, Option, All, All-imp,
  Bool-cases, inl, inr, leb, length, arith,
}
use permeant_os.Py.Result.{ok}
use permeant_os.KvCache.{
  Tensor, Layer, Views, Layout, layer_block_views, source_block_count, key_value, combined_layout,
}
use permeant_os.KvCache.Places.{Point, Distinct}
use permeant_os.KvCache.Write.{write_combined_cache}
use permeant_os.KvCache.Written.{Holds}
use permeant_os.KvCache.Complete.{write_combined_cache-Wrote}
use permeant_os.KvCache.Samples.{
  last_index, second_index, candidates, seen, collect_points, sample_points, Sample, all_match,
  SlotSamples, Floating, sample_of, sample_at, samples_at, combined_slot_samples,
}

All-snoc {ℓ κ} :
    {A : Type ℓ} (P : A → Type κ) (xs : List A) (x : A) → All P xs → P x → All P (xs ++ x ∷ [])
All-snoc P [] x h p = (p, tt)
All-snoc P (y ∷ xs) x h p = (h.0, All-snoc P xs x h.1 p)

collect_points-All :
    (P : Point → Type 0) (limit : ℕ) (points ps : List Point)
    → All P points
    → All P ps
    → All P (collect_points limit points ps)
unfolding collect_points
collect_points-All P limit points [] h k = h
collect_points-All P limit points (p ∷ ps) h k = elim (Bool-cases (seen p points)) [
  | inl old ↦ rw old (collect_points-All P limit points ps h k.1)
  | inr fresh ↦ rw fresh (elim (Bool-cases (leb limit (length (points ++ p ∷ [])))) [
    | inl full ↦ rw full (All-snoc P points p h k.0)
    | inr more ↦
        rw more (collect_points-All P limit (points ++ p ∷ []) ps (All-snoc P points p h k.0) k.1)
  ])
]

snoc-cons {ℓ} : {A : Type ℓ} (xs : List A) (x : A) → xs ++ x ∷ [] ≢ []
snoc-cons [] x e = cc e
snoc-cons (y ∷ xs) x e = cc e

collect_points-cons :
    (limit : ℕ) (points ps : List Point) → points ≢ [] → collect_points limit points ps ≢ []
unfolding collect_points
collect_points-cons limit points [] n = n
collect_points-cons limit points (p ∷ ps) n = elim (Bool-cases (seen p points)) [
  | inl old ↦ rw old (collect_points-cons limit points ps n)
  | inr fresh ↦ rw fresh (elim (Bool-cases (leb limit (length (points ++ p ∷ [])))) [
    | inl full ↦ rw full (snoc-cons points p)
    | inr more ↦ rw more (collect_points-cons limit (points ++ p ∷ []) ps (snoc-cons points p))
  ])
]

collect_points-first :
    (limit : ℕ) (p : Point) (ps : List Point) → collect_points limit [] (p ∷ ps) ≢ []
unfolding collect_points seen
collect_points-first limit p ps = elim (Bool-cases (leb limit 1)) [
  | inl full ↦ rw full (λ e. cc e)
  | inr more ↦ rw more (collect_points-cons limit (p ∷ []) ps (λ e. cc e))
]

sample_points-cons :
    (limit blocks block_size kv_heads head_dim : ℕ)
    → sample_points limit blocks block_size kv_heads head_dim ≢ []
unfolding sample_points
sample_points-cons limit blocks block_size kv_heads head_dim =
    collect_points-first limit (record { block = 0; token = 0; head = 0; dim = 0 })
      (record {
        block = 0;
        token = second_index block_size;
        head = second_index kv_heads;
        dim = second_index head_dim;
      }
        ∷ record {
          block = last_index blocks;
          token = last_index block_size;
          head = last_index kv_heads;
          dim = last_index head_dim;
        }
        ∷ [])

module _ (blocks block_size kv_heads head_dim : ℕ) where
  abbrev InRange : Point → Type 0
  InRange p = (p.block < blocks) × (p.token < block_size) × (p.head < kv_heads) × (p.dim < head_dim)

  second_lt : (n : ℕ) → 0 < n → second_index n < n
  second_lt zero h = h
  second_lt (suc zero) h = h
  second_lt (suc (suc n)) h = omega arith

  last_lt : (n : ℕ) → 0 < n → last_index n < n
  last_lt zero h = h
  last_lt (suc n) h = omega arith

  sample_points-InRange :
      (limit : ℕ)
      → 0 < blocks
      → 0 < block_size
      → 0 < kv_heads
      → 0 < head_dim
      → All InRange (sample_points limit blocks block_size kv_heads head_dim)
  unfolding sample_points
  sample_points-InRange limit b t h d =
      collect_points-All InRange limit [] (candidates blocks block_size kv_heads head_dim) tt (
        (b, t, h, d),
        (
          (b, second_lt block_size t, second_lt kv_heads h, second_lt head_dim d),
          ((last_lt blocks b, last_lt block_size t, last_lt kv_heads h, last_lt head_dim d), tt),
        ),
      )

module _ {E F : Type 0} (fl : Floating E F) (v : Views E) where
  -- A key or a value of the source is not far from itself: it is a finite number.
  abbrev pub Finite : Type 0
  Finite =
      (block head dim token : ℕ) (pair : E × E)
      → key_value v.source block head dim token ≡ ok pair
      → (fl.within (fl.distance (fl.float pair.0) (fl.scalar pair.0)) ≡ true)
        × (fl.within (fl.distance (fl.float pair.1) (fl.scalar pair.1)) ≡ true)

  module _ (layout : Layout) (ids : Option (List ℕ)) (cache : Tensor E) (finite : Finite) where
    sample_at-matches :
        (p : Point)
        → Holds v.source layout ids p cache
        → (s : Sample F) × (sample_at fl v layout ids cache p ≡ ok s)
          × (s.key_matches ≡ true)
          × (s.value_matches ≡ true)
    unfolding sample_at
    sample_at-matches p held =
        let (near_key, near_value) =
          finite p.block p.head p.dim p.token held.pair held.source_pair in
        (
          sample_of fl p held.places held.pair held.pair.0 held.pair.1,
          rw (held.source_pair, held.target, held.key, held.value) refl,
          near_key,
          near_value,
        )

    samples_at-match :
        (ps : List Point)
        → ps ≢ []
        → All (λ p. Holds v.source layout ids p cache) ps
        → (ss : List (Sample F)) × (samples_at fl v layout ids cache ps ≡ ok ss)
          × (all_match ss ≡ true)
          × (ss ≢ [])
    unfolding samples_at all_match
    samples_at-match [] n h = absurd (n refl)
    samples_at-match (p ∷ []) n h =
        let (s, e, k, w) = sample_at-matches p h.0 in (s ∷ [], rw e refl, rw (k, w) refl, λ e. cc e)
    samples_at-match (p ∷ q ∷ ps) n h =
        let (s, e, k, w) = sample_at-matches p h.0 in
        let (ss, e', m, _) = samples_at-match (q ∷ ps) (λ x. cc x) h.1 in
        (s ∷ ss, rw (e, e') refl, rw (k, w, m) refl, λ e. cc e)

-- If a layer with blocks, heads, dimensions and tokens, all of finite numbers, was written into a cache
-- whose target blocks are distinct, then the samples of that layer can be taken from the cache; there
-- is at least one, and all of them match.
pub combined_slot_samples-write :
    {E F : Type 0} (fl : Floating E F) (limit : ℕ) (layer : Layer E) (ids : Option (List ℕ))
    (cache cache' : Tensor E) (v : Views E) (blocks : ℕ) (distinct : Distinct ids)
    → write_combined_cache cache layer ids ≡ ok cache'
    → layer_block_views layer ≡ ok v
    → source_block_count v.source ≡ ok blocks
    → 0 < blocks
    → 0 < v.block_size
    → 0 < v.kv_heads
    → 0 < v.head_dim
    → Finite fl v
    → (report : SlotSamples F) × (combined_slot_samples fl limit cache' layer ids ≡ ok report)
      × (report.samples ≢ [])
      × (report.all_samples_match ≡ true)
unfolding combined_slot_samples
combined_slot_samples-write fl limit layer ids cache cache' v blocks distinct h e1 e2 b t hd d
      finite =
    let (layout, e, wrote) =
      write_combined_cache-Wrote layer ids cache cache' v blocks distinct h e1 e2 in
    let points = sample_points limit blocks v.block_size v.kv_heads v.head_dim in
    let held : All (λ p. Holds v.source layout ids p cache') points =
      All-imp (InRange blocks v.block_size v.kv_heads v.head_dim)
        (λ p. Holds v.source layout ids p cache') points
        (λ p inside. let (ib, it, ih, id) = inside in wrote.complete p ib it ih id)
        (sample_points-InRange blocks v.block_size v.kv_heads v.head_dim limit b t hd d) in
    let (samples, e4, matched, some_sample) =
      samples_at-match fl v layout ids cache' finite points
        (sample_points-cons limit blocks v.block_size v.kv_heads v.head_dim) held in
    let e3 : combined_layout cache'.shape v.block_size v.kv_heads v.head_dim ≡ ok layout =
      ap (λ s. combined_layout s v.block_size v.kv_heads v.head_dim) wrote.shape ∙ e in
    (
      record { layout = layout; samples = samples; all_samples_match = all_match samples },
      rw (e1, e2, e3, e4) refl,
      some_sample,
      matched,
    )
