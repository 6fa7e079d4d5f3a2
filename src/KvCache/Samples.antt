-- ===== src/KvCache/Samples.antt =====
-- `_sample_points` and `_combined_slot_samples`: the points of a layer that are looked up in the cache
-- after the write. The conversions to floats, their distance and its bound are parameters. The limit is
-- the one of the environment, or 0 for a negative one. A source of no heads, dimensions or tokens, for
-- which `_sample_points` counts from -1, is not modelled.
use permeant_os.Prelude.{
  ℕ, zero, suc, Bool, true, false, ◌&&◌, ◌||◌, List, [], ◌∷◌, ◌++◌, Option, eqb, leb, length,
  if◌then◌else◌,
}
use permeant_os.Py.Result.{Result, ok, ◌>>=◌}
use permeant_os.KvCache.{
  Index, Tensor, Layer, Views, Layout, layer_block_views, source_block_count, key_value,
  combined_layout, combined_target_indices,
}
use permeant_os.KvCache.Places.{Point}
use permeant_os.KvCache.Write.{value_at}

-- `max(n - 1, 0)`
abbrev pub last_index : ℕ → ℕ
last_index zero = 0
last_index (suc n) = n

-- `min(n - 1, 1)`, for a positive `n`
abbrev pub second_index : ℕ → ℕ
second_index (suc (suc n)) = 1
second_index _ = 0

abbrev pub candidates : ℕ → ℕ → ℕ → ℕ → List Point
candidates blocks block_size kv_heads head_dim =
    record { block = 0; token = 0; head = 0; dim = 0 }
    ∷ record {
      block = 0;
      token = second_index block_size;
      head = second_index kv_heads;
      dim = second_index head_dim;
    }
    ∷ record {
      block = last_index blocks;
      token = last_index block_size;
      head = last_index kv_heads;
      dim = last_index head_dim;
    }
    ∷ []

abbrev same_point : Point → Point → Bool
same_point p q =
    eqb p.block q.block && (eqb p.token q.token && (eqb p.head q.head && eqb p.dim q.dim))

unfoldable pub seen : Point → List Point → Bool
seen p [] = false
seen p (q ∷ points) = same_point p q || seen p points

-- the loop, with the points that it has found
unfoldable pub collect_points : ℕ → List Point → List Point → List Point
unfolding seen
collect_points limit points [] = points
collect_points limit points (p ∷ ps) =
    let skipped = collect_points limit points ps in
    let rest = collect_points limit (points ++ p ∷ []) ps in
    if seen p points
    then skipped
    else if leb limit (length (points ++ p ∷ []))
    then points ++ p ∷ []
    else rest

unfoldable pub sample_points : ℕ → ℕ → ℕ → ℕ → ℕ → List Point
unfolding collect_points
sample_points limit blocks block_size kv_heads head_dim =
    collect_points limit [] (candidates blocks block_size kv_heads head_dim)

pub record Sample (F : Type 0) : Type 0 where
  pub source : Point
  pub target_key_indices : Index
  pub target_value_indices : Index
  pub source_key : F
  pub target_key : F
  pub source_value : F
  pub target_value : F
  pub key_delta : F
  pub value_delta : F
  pub key_matches : Bool
  pub value_matches : Bool

unfoldable pub all_match : {F : Type 0} → List (Sample F) → Bool
all_match [] = true
all_match (s ∷ samples) = (s.key_matches && s.value_matches) && all_match samples

pub record SlotSamples (F : Type 0) : Type 0 where
  pub layout : Layout
  pub samples : List (Sample F)
  pub all_samples_match : Bool

-- `float` of an element of the source, `_scalar` of one of the cache, `abs(x - y)`, and `delta <= 1e-6`
pub record Floating (E F : Type 0) : Type 0 where
  pub float : E → F
  pub scalar : E → F
  pub distance : F → F → F
  pub within : F → Bool

module _ {E F : Type 0} (fl : Floating E F) where
  abbrev pub sample_of : Point → Index × Index → E × E → E → E → Sample F
  sample_of p (key_indices, value_indices) (source_key, source_value) target_key target_value =
      record {
        source = p;
        target_key_indices = key_indices;
        target_value_indices = value_indices;
        source_key = fl.float source_key;
        target_key = fl.scalar target_key;
        source_value = fl.float source_value;
        target_value = fl.scalar target_value;
        key_delta = fl.distance (fl.float source_key) (fl.scalar target_key);
        value_delta = fl.distance (fl.float source_value) (fl.scalar target_value);
        key_matches = fl.within (fl.distance (fl.float source_key) (fl.scalar target_key));
        value_matches = fl.within (fl.distance (fl.float source_value) (fl.scalar target_value));
      }

  module _ (v : Views E) (layout : Layout) (ids : Option (List ℕ)) (cache : Tensor E) where
    unfoldable pub sample_at : Point → Result (Sample F)
    unfolding key_value combined_target_indices value_at
    sample_at p = do
      pair ← key_value v.source p.block p.head p.dim p.token
      places ← combined_target_indices layout p.block p.token p.head p.dim ids
      target_key ← value_at places.0 cache
      target_value ← value_at places.1 cache
      ok (sample_of p places pair target_key target_value)

    unfoldable pub samples_at : List Point → Result (List (Sample F))
    unfolding sample_at
    samples_at [] = ok []
    samples_at (p ∷ points) = do s ← sample_at p; rest ← samples_at points; ok (s ∷ rest)

  unfoldable pub combined_slot_samples :
      ℕ → Tensor E → Layer E → Option (List ℕ) → Result (SlotSamples F)
  unfolding layer_block_views source_block_count combined_layout sample_points samples_at all_match
  combined_slot_samples limit cache layer ids = do
    v ← layer_block_views layer
    blocks ← source_block_count v.source
    layout ← combined_layout cache.shape v.block_size v.kv_heads v.head_dim
    samples ←
        samples_at v layout ids cache
          (sample_points limit blocks v.block_size v.kv_heads v.head_dim)
    ok (record { layout = layout; samples = samples; all_samples_match = all_match samples })
