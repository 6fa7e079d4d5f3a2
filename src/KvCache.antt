-- ===== src/KvCache.antt =====
-- adapters/vllm_live_runtime_registry.py: the layers of a prepared payload, and the KV caches of a
-- runtime that they are written into. A cache is a tensor, by its shape and its elements; a row that
-- two indices share, as nested lists can, is not modelled. The elements are a parameter. A
-- `RuntimeError` of this module is `invalid`.
pub mod Loops
pub mod Write
pub mod Radix
pub mod Places
pub mod Written
pub mod Outer
pub mod Layouts
pub mod Complete
pub mod Total
pub mod Returns
pub mod Separate
pub mod Filled
pub mod Orders
pub mod Separated
pub mod Samples
pub mod Sampled
pub mod Flat
pub mod Shape
use permeant_os.Prelude.{
  ℕ, zero, suc, ◌+◌, ◌*◌, ◌/◌, ◌%◌, String, Bool, true, false, ◌&&◌, List, [], ◌∷◌, Option, none,
  some, ltb, eqb, if◌then◌else◌, length, get_elem?,
}
use permeant_os.Py.Result.{
  Result, ok, raise, invalid, index_error, zero_division, ◌>>=◌, ◌>>◌, reject_if,
}

abbrev pub or_raise {ℓ} : {A : Type ℓ} → Option A → Result A
or_raise none = raise index_error
or_raise (some x) = ok x

-- `xs[i]`
abbrev pub item {ℓ} : {A : Type ℓ} → List A → ℕ → Result A
item xs i = or_raise (get_elem? xs i)

-- A flat tensor of a payload. A field is `none` where the payload has no list.
pub record FlatTensor (E : Type 0) : Type 0 where
  pub shape : Option (List ℕ)
  pub elements : Option (List E)

abbrev pub Blocks : Type 0 → Type 0
Blocks E = List (List (List (List E)))

pub record Layer (E : Type 0) : Type 0 where
  pub key_blocks : Option (Blocks E)
  pub value_blocks : Option (Blocks E)
  pub key_tensor : Option (FlatTensor E)
  pub value_tensor : Option (FlatTensor E)

-- The keys and the values of a layer, nested or flat.
pub data Source (E : Type 0) : Type 0 where
  nested : Blocks E → Blocks E → Source E
  flat : List ℕ → List E → List ℕ → List E → Source E

-- What `_layer_block_views` returns; `is_flat` is the constructor of the source.
pub record Views (E : Type 0) : Type 0 where
  pub source : Source E
  pub block_size : ℕ
  pub kv_heads : ℕ
  pub head_dim : ℕ

abbrev pub Index : Type 0
Index = List ℕ

pub record Tensor (E : Type 0) : Type 0 where
  pub shape : List ℕ
  pub cells : Index → E

pub data Layout : Type 0 where
  token_head_dim : ℕ → Layout
  head_token_dim : ℕ → Layout
  -- the tokens of a target block, and the target blocks of a source block
  split_token_head_dim : ℕ → ℕ → Layout
  split_head_token_dim : ℕ → ℕ → Layout
  unsupported : List ℕ → Layout

-- `a % b == 0`
unfoldable pub divisible : ℕ → ℕ → Result Bool
divisible a zero = raise zero_division
divisible a (suc b) = ok (eqb (a % suc b) 0)

-- `test and a % b == 0`
unfoldable pub and_divisible : Bool → ℕ → ℕ → Result Bool
unfolding divisible
and_divisible false a b = ok false
and_divisible true a b = divisible a b

-- the last two tests, whose source blocks are split
unfoldable pub split_layout : List ℕ → ℕ → ℕ → ℕ → ℕ → ℕ → ℕ → Result Layout
unfolding and_divisible
split_layout shape s2 s3 s4 block_size kv_heads head_dim = do
  by_token ← and_divisible (eqb s3 kv_heads && eqb s4 head_dim) block_size s2
  if by_token then ok (split_token_head_dim s2 (block_size / s2)) else (do
    by_head ← and_divisible (eqb s2 kv_heads && eqb s4 head_dim) block_size s3
    ok (if by_head then split_head_token_dim s3 (block_size / s3) else unsupported shape))

unfoldable pub layout_of : List ℕ → ℕ → ℕ → ℕ → ℕ → ℕ → ℕ → Result Layout
unfolding split_layout
layout_of shape s2 s3 s4 block_size kv_heads head_dim =
    if eqb s2 block_size && (eqb s3 kv_heads && eqb s4 head_dim)
    then ok (token_head_dim block_size)
    else if eqb s2 kv_heads && (eqb s3 block_size && eqb s4 head_dim)
    then ok (head_token_dim block_size)
    else split_layout shape s2 s3 s4 block_size kv_heads head_dim

unfoldable pub combined_layout : List ℕ → ℕ → ℕ → ℕ → Result Layout
unfolding layout_of
combined_layout (s0 ∷ s1 ∷ s2 ∷ s3 ∷ s4 ∷ []) block_size kv_heads head_dim =
    if eqb s1 2
    then layout_of (s0 ∷ s1 ∷ s2 ∷ s3 ∷ s4 ∷ []) s2 s3 s4 block_size kv_heads head_dim
    else ok (unsupported (s0 ∷ s1 ∷ s2 ∷ s3 ∷ s4 ∷ []))
combined_layout shape block_size kv_heads head_dim = ok (unsupported shape)

unfoldable pub target_block_id : ℕ → Option (List ℕ) → Result ℕ
target_block_id logical_block_index none = ok logical_block_index
target_block_id logical_block_index (some ids) = item ids logical_block_index

-- `value or 1`
abbrev pub or_one : ℕ → ℕ
or_one zero = 1
or_one (suc n) = suc n

-- `count * int(layout.get("target_blocks_per_source_block") or 1)`
unfoldable pub target_blocks : Layout → ℕ → ℕ
target_blocks (split_token_head_dim tokens blocks) count = count * or_one blocks
target_blocks (split_head_token_dim tokens blocks) count = count * or_one blocks
target_blocks _ count = count

-- the indices of a key, and those of its value
unfoldable pub combined_target_indices :
    Layout → ℕ → ℕ → ℕ → ℕ → Option (List ℕ) → Result (Index × Index)
unfolding target_block_id
combined_target_indices (token_head_dim tokens) block token head dim ids = do
  b ← target_block_id block ids
  ok (b ∷ 0 ∷ token ∷ head ∷ dim ∷ [], b ∷ 1 ∷ token ∷ head ∷ dim ∷ [])
combined_target_indices (head_token_dim tokens) block token head dim ids = do
  b ← target_block_id block ids
  ok (b ∷ 0 ∷ head ∷ token ∷ dim ∷ [], b ∷ 1 ∷ head ∷ token ∷ dim ∷ [])
combined_target_indices (split_token_head_dim tokens blocks) block token head dim ids = do
  b ← target_block_id (block * or_one blocks + token / or_one tokens) ids
  ok (
    b ∷ 0 ∷ token % or_one tokens ∷ head ∷ dim ∷ [],
    b ∷ 1 ∷ token % or_one tokens ∷ head ∷ dim ∷ [],
  )
combined_target_indices (split_head_token_dim tokens blocks) block token head dim ids = do
  b ← target_block_id (block * or_one blocks + token / or_one tokens) ids
  ok (
    b ∷ 0 ∷ head ∷ token % or_one tokens ∷ dim ∷ [],
    b ∷ 1 ∷ head ∷ token % or_one tokens ∷ dim ∷ [],
  )
combined_target_indices (unsupported shape) block token head dim ids = do
  _ ← target_block_id block ids
  raise (invalid "unsupported combined kv_cache layout sample {}" [])

-- `((a * shape[1] + b) * shape[2] + c) * shape[3] + d`
abbrev pub offset : ℕ → ℕ → ℕ → ℕ → ℕ → ℕ → ℕ → ℕ
offset s1 s2 s3 a b c d = ((a * s1 + b) * s2 + c) * s3 + d

module _ {E : Type 0} where
  -- `len(value_blocks[0][0]) if value_blocks and value_blocks[0] else 0`, and the same of heads
  unfoldable pub inner_length : Blocks E → ℕ
  inner_length [] = 0
  inner_length ([] ∷ blocks) = 0
  inner_length ((row ∷ rows) ∷ blocks) = length row

  unfoldable pub first_length : Blocks E → ℕ
  first_length [] = 0
  first_length (block ∷ blocks) = length block

  flat_views :
      Option (List ℕ) → Option (List E) → Option (List ℕ) → Option (List E) → Result (Views E)
  flat_views (some (k0 ∷ k1 ∷ k2 ∷ k3 ∷ [])) (some ks) (some (v0 ∷ v1 ∷ v2 ∷ v3 ∷ [])) (some vs) =
      ok (record {
        source = flat (k0 ∷ k1 ∷ k2 ∷ k3 ∷ []) ks (v0 ∷ v1 ∷ v2 ∷ v3 ∷ []) vs;
        block_size = k3;
        kv_heads = k1;
        head_dim = k2;
      })
  flat_views _ _ _ _ =
      raise (invalid "prepared key/value tensor payloads must include flat data with 4D shapes" [])

  tensor_views : Option (FlatTensor E) → Option (FlatTensor E) → Result (Views E)
  unfolding flat_views
  tensor_views (some k) (some v) = flat_views k.shape k.elements v.shape v.elements
  tensor_views _ _ =
      raise (
        invalid "prepared payload layer must expose key/value blocks or key_tensor/value_tensor" [])

  block_views : Option (Blocks E) → Option (Blocks E) → Result (Views E) → Result (Views E)
  block_views (some ks) (some vs) other = ok (record {
    source = nested ks vs;
    block_size = inner_length vs;
    kv_heads = first_length ks;
    head_dim = inner_length ks;
  })
  block_views _ _ other = other

  unfoldable pub layer_block_views : Layer E → Result (Views E)
  unfolding block_views tensor_views
  layer_block_views layer =
      block_views layer.key_blocks layer.value_blocks
        (tensor_views layer.key_tensor layer.value_tensor)

  unfoldable pub source_block_count : Source E → Result ℕ
  source_block_count (nested ks vs) = ok (length ks)
  source_block_count (flat ks kd vs vd) = item ks 0

  -- `source[a][b][c][d]`
  unfoldable pub nested_item : Blocks E → ℕ → ℕ → ℕ → ℕ → Result E
  nested_item source a b c d = do x ← item source a; y ← item x b; z ← item y c; item z d

  unfoldable pub flat_item : List ℕ → List E → ℕ → ℕ → ℕ → ℕ → Result E
  flat_item (s0 ∷ s1 ∷ s2 ∷ s3 ∷ []) elements a b c d = item elements (offset s1 s2 s3 a b c d)
  flat_item _ elements a b c d = raise index_error

  -- the key and the value of a point, by `_flat_key_value` or by subscripts
  unfoldable pub key_value : Source E → ℕ → ℕ → ℕ → ℕ → Result (E × E)
  unfolding nested_item flat_item
  key_value (nested ks vs) block head dim token = do
    k ← nested_item ks block head dim token
    v ← nested_item vs block head token dim
    ok (k, v)
  key_value (flat ks kd vs vd) block head dim token = do
    k ← flat_item ks kd block head dim token
    v ← flat_item vs vd block head token dim
    ok (k, v)

  unfoldable pub combined_target_block_count : Tensor E → Layer E → Result ℕ
  unfolding target_blocks
  combined_target_block_count cache layer = do
    v ← layer_block_views layer
    count ← source_block_count v.source
    layout ← combined_layout cache.shape v.block_size v.kv_heads v.head_dim
    ok (target_blocks layout count)
