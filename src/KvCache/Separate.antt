-- ===== src/KvCache/Separate.antt =====
-- `_write_separate_cache`: the keys and the values of a layer, each written into a cache of its own.
-- In each of its four pairs of loops the indices of the cache are those of the loops, in their order.
-- Two caches that are one object are not modelled.
use permeant_os.Prelude.{ℕ, String, Bool, ◌&&◌, List, [], ◌∷◌, eqb, if◌then◌else◌}
use permeant_os.Py.Result.{Result, ok, raise, invalid, index_error, ◌>>=◌}
use permeant_os.KvCache.{
  Tensor, Layer, Source, nested, flat, Views, layer_block_views, nested_item, key_value,
}
use permeant_os.KvCache.Loops.{for_range, for_range2}
use permeant_os.KvCache.Write.{put}

-- What stands for a separate cache: a key and a value cache, in a list, a tuple or an object; one
-- where either is missing; or something else.
pub data CachePair (E : Type 0) : Type 0 where
  both : Tensor E → Tensor E → CachePair E
  incomplete no_pair : CachePair E

-- A shape behind its first number, which counts the blocks, and the element that belongs at the
-- indices of a point.
pub record Order (E : Type 0) : Type 0 where
  pub second : ℕ
  pub third : ℕ
  pub fourth : ℕ
  pub element : ℕ → ℕ → ℕ → ℕ → Result E

module _ {E : Type 0} where
  -- From a flat source both elements are read, and one of them is taken.
  unfoldable pub source_key : Source E → ℕ → ℕ → ℕ → ℕ → Result E
  unfolding nested_item key_value
  source_key (nested ks vs) block head dim token = nested_item ks block head dim token
  source_key (flat ks kd vs vd) block head dim token = do
    kv ← key_value (flat ks kd vs vd) block head dim token
    ok kv.0

  unfoldable pub source_value : Source E → ℕ → ℕ → ℕ → ℕ → Result E
  unfolding nested_item key_value
  source_value (nested ks vs) block head dim token = nested_item vs block head token dim
  source_value (flat ks kd vs vd) block head dim token = do
    kv ← key_value (flat ks kd vs vd) block head dim token
    ok kv.1

  unfoldable pub fill_one :
      (ℕ → ℕ → ℕ → ℕ → Result E) → ℕ → ℕ → ℕ → ℕ → Tensor E → Result (Tensor E)
  unfolding put
  fill_one element i j k l cache = do x ← element i j k l; put (i ∷ j ∷ k ∷ l ∷ []) x cache

  -- four loops
  unfoldable pub fill : (ℕ → ℕ → ℕ → ℕ → Result E) → ℕ → ℕ → ℕ → ℕ → Tensor E → Result (Tensor E)
  unfolding for_range fill_one
  fill element n1 n2 n3 n4 =
      for_range2 n1 n2 (λ i j. for_range2 n3 n4 (λ k l. fill_one element i j k l))

  -- `shape == [int(shape[0]), second, third, fourth]`
  abbrev pub has_order : Order E → ℕ → ℕ → ℕ → Bool
  has_order o s1 s2 s3 = eqb s1 o.second && (eqb s2 o.third && eqb s3 o.fourth)

  -- the loops of the first order that the shape has
  unfoldable pub fill_either : String → Order E → Order E → List ℕ → Tensor E → Result (Tensor E)
  unfolding fill
  fill_either message one two [] cache = raise index_error
  fill_either message one two (s0 ∷ s1 ∷ s2 ∷ s3 ∷ []) cache =
      if has_order one s1 s2 s3
      then fill one.element s0 one.second one.third one.fourth cache
      else if has_order two s1 s2 s3
      then fill two.element s0 two.second two.third two.fourth cache
      else raise (invalid message [])
  fill_either message one two _ cache = raise (invalid message [])

  abbrev pub keys_by_head : Views E → Order E
  keys_by_head v = record {
    second = v.kv_heads;
    third = v.head_dim;
    fourth = v.block_size;
    element = source_key v.source;
  }

  abbrev pub keys_by_token : Views E → Order E
  keys_by_token v = record {
    second = v.block_size;
    third = v.kv_heads;
    fourth = v.head_dim;
    element = λ block token head dim. source_key v.source block head dim token;
  }

  abbrev pub values_by_head : Views E → Order E
  values_by_head v = record {
    second = v.kv_heads;
    third = v.block_size;
    fourth = v.head_dim;
    element = λ block head token dim. source_value v.source block head dim token;
  }

  abbrev pub values_by_token : Views E → Order E
  values_by_token v = record {
    second = v.block_size;
    third = v.kv_heads;
    fourth = v.head_dim;
    element = λ block token head dim. source_value v.source block head dim token;
  }

  unfoldable pub write_keys : Views E → List ℕ → Tensor E → Result (Tensor E)
  unfolding fill_either source_key
  write_keys v = fill_either "unsupported key cache layout {}" (keys_by_head v) (keys_by_token v)

  unfoldable pub write_values : Views E → List ℕ → Tensor E → Result (Tensor E)
  unfolding fill_either source_value
  write_values v =
      fill_either "unsupported value cache layout {}" (values_by_head v) (values_by_token v)

  unfoldable pub write_separate_cache : CachePair E → Layer E → Result (Tensor E × Tensor E)
  unfolding layer_block_views write_keys write_values
  write_separate_cache no_pair layer =
      raise (invalid "separate kv cache must be a 2-tuple/list or dict with key/value entries" [])
  write_separate_cache incomplete layer =
      raise (invalid "separate kv cache pair is missing key/value storage" [])
  write_separate_cache (both keys values) layer = do
    v ← layer_block_views layer
    keys' ← write_keys v keys.shape keys
    values' ← write_values v values.shape values
    ok (keys', values')
