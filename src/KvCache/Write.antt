-- ===== src/KvCache/Write.antt =====
-- adapters/vllm_live_runtime_registry.py: `_write_combined_cache`, its tests and its four loops. The
-- cache that a raise leaves half written is not modelled.
use permeant_os.Prelude.{
  ℕ, ◌+◌, ◌*◌, ◌/◌, ◌%◌, Bool, true, false, ◌&&◌, List, [], ◌∷◌, Option, ltb, eqb, if◌then◌else◌,
}
use permeant_os.Py.Result.{Result, ok, raise, invalid, index_error, ◌>>=◌}
use permeant_os.KvCache.{
  Index, Tensor, Layer, Views, layer_block_views, source_block_count, key_value, target_block_id,
  and_divisible,
}
use permeant_os.KvCache.Loops.{for_range, for_range2}

unfoldable pub same_index : Index → Index → Bool
same_index [] [] = true
same_index (i ∷ is) (j ∷ js) = eqb i j && same_index is js
same_index _ _ = false

unfoldable pub in_bounds : Index → List ℕ → Bool
in_bounds [] [] = true
in_bounds (i ∷ is) (n ∷ shape) = ltb i n && in_bounds is shape
in_bounds _ _ = false

module _ {E : Type 0} where
  -- `cache[i][j]… = x`
  unfoldable pub put : Index → E → Tensor E → Result (Tensor E)
  unfolding same_index in_bounds
  put index x cache =
      if in_bounds index cache.shape
      then ok (record cache {
        cells = λ other. if same_index index other then x else cache.cells other;
      })
      else raise index_error

  -- `cache[i][j]…`
  unfoldable pub value_at : Index → Tensor E → Result E
  unfolding in_bounds
  value_at index cache =
      if in_bounds index cache.shape then ok (cache.cells index) else raise index_error

  -- the two assignments of a point
  unfoldable pub put_pair : Index → Index → E × E → Tensor E → Result (Tensor E)
  unfolding put
  put_pair key_index value_index (k, v) cache = do
    keyed ← put key_index k cache
    put value_index v keyed

  module _ (v : Views E) (ids : Option (List ℕ)) where
    -- the bodies of the loops of the four layouts, by their points
    unfoldable pub write_token_head : ℕ → ℕ → ℕ → ℕ → Tensor E → Result (Tensor E)
    unfolding put_pair
    write_token_head block token head dim cache = do
      kv ← key_value v.source block head dim token
      b ← target_block_id block ids
      put_pair (b ∷ 0 ∷ token ∷ head ∷ dim ∷ []) (b ∷ 1 ∷ token ∷ head ∷ dim ∷ []) kv cache

    unfoldable pub write_head_token : ℕ → ℕ → ℕ → ℕ → Tensor E → Result (Tensor E)
    unfolding put_pair
    write_head_token block head token dim cache = do
      kv ← key_value v.source block head dim token
      b ← target_block_id block ids
      put_pair (b ∷ 0 ∷ head ∷ token ∷ dim ∷ []) (b ∷ 1 ∷ head ∷ token ∷ dim ∷ []) kv cache

    -- the heads and the dimensions of one token, in a target block that was found
    unfoldable pub write_split_token : ℕ → ℕ → ℕ → ℕ → ℕ → ℕ → Tensor E → Result (Tensor E)
    unfolding put_pair
    write_split_token block token b t head dim cache = do
      kv ← key_value v.source block head dim token
      put_pair (b ∷ 0 ∷ t ∷ head ∷ dim ∷ []) (b ∷ 1 ∷ t ∷ head ∷ dim ∷ []) kv cache

    unfoldable pub write_split_head : ℕ → ℕ → ℕ → ℕ → ℕ → ℕ → Tensor E → Result (Tensor E)
    unfolding put_pair
    write_split_head block token b t head dim cache = do
      kv ← key_value v.source block head dim token
      put_pair (b ∷ 0 ∷ head ∷ t ∷ dim ∷ []) (b ∷ 1 ∷ head ∷ t ∷ dim ∷ []) kv cache

    unfoldable pub write_token_head_dim : ℕ → Tensor E → Result (Tensor E)
    unfolding write_token_head for_range
    write_token_head_dim blocks =
        for_range2 blocks v.block_size
          (λ block token. for_range2 v.kv_heads v.head_dim (write_token_head block token))

    unfoldable pub write_head_token_dim : ℕ → Tensor E → Result (Tensor E)
    unfolding write_head_token for_range
    write_head_token_dim blocks =
        for_range2 blocks v.kv_heads
          (λ block head. for_range2 v.block_size v.head_dim (write_head_token block head))

    -- a token of a source block goes to one of several target blocks
    unfoldable pub write_split_token_head_dim : ℕ → ℕ → ℕ → Tensor E → Result (Tensor E)
    unfolding write_split_token for_range
    write_split_token_head_dim blocks tokens blocks_per =
        for_range2 blocks v.block_size (λ block token cache.
          target_block_id (block * blocks_per + token / tokens) ids >>= λ b.
          for_range2 v.kv_heads v.head_dim (write_split_token block token b (token % tokens)) cache)

    unfoldable pub write_split_head_token_dim : ℕ → ℕ → ℕ → Tensor E → Result (Tensor E)
    unfolding write_split_head for_range
    write_split_head_token_dim blocks tokens blocks_per =
        for_range2 blocks v.block_size (λ block token cache.
          target_block_id (block * blocks_per + token / tokens) ids >>= λ b.
          for_range2 v.kv_heads v.head_dim (write_split_head block token b (token % tokens)) cache)

    -- the last two tests
    unfoldable pub write_split : ℕ → ℕ → ℕ → ℕ → Tensor E → Result (Tensor E)
    unfolding write_split_token_head_dim write_split_head_token_dim
    write_split blocks s2 s3 s4 cache = do
      by_token ← and_divisible (eqb s3 v.kv_heads && eqb s4 v.head_dim) v.block_size s2
      if by_token then write_split_token_head_dim blocks s2 (v.block_size / s2) cache else (do
        by_head ← and_divisible (eqb s2 v.kv_heads && eqb s4 v.head_dim) v.block_size s3
        if by_head
            then write_split_head_token_dim blocks s3 (v.block_size / s3) cache
            else raise (invalid "unsupported combined kv_cache layout {} for source {}" []))

    unfoldable pub write_shape : ℕ → ℕ → ℕ → ℕ → Tensor E → Result (Tensor E)
    unfolding write_token_head_dim write_head_token_dim write_split
    write_shape blocks s2 s3 s4 cache =
        if eqb s2 v.block_size && (eqb s3 v.kv_heads && eqb s4 v.head_dim)
        then write_token_head_dim blocks cache
        else if eqb s2 v.kv_heads && (eqb s3 v.block_size && eqb s4 v.head_dim)
        then write_head_token_dim blocks cache
        else write_split blocks s2 s3 s4 cache

    unfoldable pub write_views : ℕ → List ℕ → Tensor E → Result (Tensor E)
    unfolding write_shape
    write_views blocks (s0 ∷ s1 ∷ s2 ∷ s3 ∷ s4 ∷ []) cache =
        if eqb s1 2
        then write_shape blocks s2 s3 s4 cache
        else raise (invalid "unsupported combined kv_cache shape {}" [])
    write_views blocks _ cache = raise (invalid "unsupported combined kv_cache shape {}" [])

  unfoldable pub write_combined_cache : Tensor E → Layer E → Option (List ℕ) → Result (Tensor E)
  unfolding write_views
  write_combined_cache cache layer ids = do
    v ← layer_block_views layer
    blocks ← source_block_count v.source
    write_views v ids blocks cache.shape cache
