-- ===== src/Tests/Caches.antt =====
-- The theorems on KV caches and their registry: a block of two tokens, with one head of one dimension,
-- that is split over two blocks of a cache of three.
use permeant_os.Prelude.{
  ℕ, zero, suc, ◌<◌, ◌≡◌, refl, false, List, [], ◌∷◌, Option, none, some, arith, length, contains,
  String, inl, inr, ◌-◌, leb, ◌≢◌, ◌+◌, true,
}
use permeant_os.Py.Value.{Value, list, int}
use permeant_os.Py.Result.{ok, Exc, raise, Result}
use permeant_os.KvCache.{
  Blocks, Layer, Views, Layout, Tensor, nested, flat, split_token_head_dim, layer_block_views,
  inner_length, first_length, source_block_count, combined_layout, combined_target_block_count,
  target_blocks, target_block_id, key_value, nested_item,
}
use permeant_os.KvCache.Places.{Distinct}
use permeant_os.KvCache.Outer.{Wrote}
use permeant_os.KvCache.Total.{Readable, Room}
use permeant_os.KvCache.Write.{write_combined_cache}
use permeant_os.KvCache.Returns.{write_combined_cache_total}
use permeant_os.KvCache.Samples.{Floating, SlotSamples, combined_slot_samples}
use permeant_os.KvCache.Sampled.{Finite, combined_slot_samples-write}
use permeant_os.KvCache.Separate.{
  source_key, source_value, keys_by_head, keys_by_token, values_by_head, values_by_token, both,
  write_separate_cache,
}
use permeant_os.KvCache.Orders.{AllRead, Stored}
use permeant_os.KvCache.Separated.{write_separate_cache_total, write_separate_cache_overrun}
use permeant_os.KvCache.Flat.{flatten, key_value-flatten}
use permeant_os.KvCache.Shape.{EndsInScalar, nesting, shape_of_storage, shape_of_storage_ends}
use permeant_os.HashRegistry.{State, store_hash, write_state, load_state_hashes, verify_from_state}
use permeant_os.HashRegistry.Durable.{here, next, restart, verify_from_state-store}

-- by block, head, dimension and token
abbrev keys : Blocks ℕ
keys = (((1 ∷ 2 ∷ []) ∷ []) ∷ []) ∷ []

-- by block, head, token and dimension
abbrev values : Blocks ℕ
values = (((3 ∷ []) ∷ (4 ∷ []) ∷ []) ∷ []) ∷ []

abbrev layer : Layer ℕ
layer = record {
  key_blocks = some keys;
  value_blocks = some values;
  key_tensor = none;
  value_tensor = none;
}

abbrev views : Views ℕ
views = record { source = nested keys values; block_size = 2; kv_heads = 1; head_dim = 1 }

abbrev cache : Tensor ℕ
cache = record { shape = 3 ∷ 2 ∷ 1 ∷ 1 ∷ 1 ∷ []; cells = λ index. 0 }

abbrev ids : Option (List ℕ)
ids = some (2 ∷ 0 ∷ [])

abbrev layout : Layout
layout = split_token_head_dim 1 2

ids-Distinct : Distinct ids
ids-Distinct zero zero b h k = refl
ids-Distinct zero (suc zero) b h k = cc (h, k)
ids-Distinct zero (suc (suc j)) b h k = cc k
ids-Distinct (suc zero) zero b h k = cc (h, k)
ids-Distinct (suc zero) (suc zero) b h k = refl
ids-Distinct (suc zero) (suc (suc j)) b h k = cc k
ids-Distinct (suc (suc i)) j b h k = cc h

keys-Readable : Readable views ids 1
unfolding key_value nested_item
keys-Readable zero zero zero zero hb hh hd ht = ((1, 3), refl)
keys-Readable zero zero zero (suc zero) hb hh hd ht = ((2, 4), refl)
keys-Readable zero zero zero (suc (suc t)) hb hh hd ht = absurd (omega arith)
keys-Readable zero zero (suc d) t hb hh hd ht = absurd (omega arith)
keys-Readable zero (suc h) d t hb hh hd ht = absurd (omega arith)
keys-Readable (suc b) h d t hb hh hd ht = absurd (omega arith)

ids-Room : Room views ids 2 3
unfolding target_block_id
ids-Room zero h = (2, refl, omega arith)
ids-Room (suc zero) h = (0, refl, omega arith)
ids-Room (suc (suc i)) h = absurd (omega arith)

write_combined_cache_total_example :
    (cache' : Tensor ℕ) × (write_combined_cache cache layer ids ≡ ok cache')
    × Wrote views ids ids-Distinct 1 layout cache cache'
unfolding layer_block_views source_block_count combined_layout target_blocks inner_length
    first_length combined_target_block_count
write_combined_cache_total_example =
    write_combined_cache_total layer ids cache views 1 2 3 (2 ∷ 1 ∷ 1 ∷ 1 ∷ []) layout ids-Distinct
      refl refl refl refl tt keys-Readable refl ids-Room

abbrev floating : Floating ℕ ℕ
floating = record {
  float = λ x. x;
  scalar = λ x. x;
  distance = λ x y. x - y + (y - x);
  within = λ d. leb d 0;
}

near : (x : ℕ) → leb (x - x + (x - x)) 0 ≡ true
near x = let e : x - x ≡ 0 = omega arith in rw e refl

keys-Finite : Finite floating views
keys-Finite b h d t pair e = (near pair.0, near pair.1)

abbrev or_cache : Result (Tensor ℕ) → Tensor ℕ
or_cache (ok written) = written
or_cache (raise e) = cache

abbrev written : Tensor ℕ
written = or_cache (write_combined_cache cache layer ids)

combined_slot_samples-write_example :
    (report : SlotSamples ℕ) × (combined_slot_samples floating 4 written layer ids ≡ ok report)
    × (report.samples ≢ [])
    × (report.all_samples_match ≡ true)
unfolding layer_block_views source_block_count combined_layout target_blocks inner_length
    first_length write_combined_cache target_block_id key_value
combined_slot_samples-write_example =
    combined_slot_samples-write floating 4 layer ids cache written views 1 ids-Distinct refl refl
      refl (omega arith) (omega arith) (omega arith) (omega arith) keys-Finite

key_value-flatten_example :
    key_value
      (flat (1 ∷ 1 ∷ 1 ∷ 2 ∷ []) (flatten keys) (1 ∷ 1 ∷ 2 ∷ 1 ∷ []) (flatten values))
      0
      0
      0
      1
    ≡ key_value (nested keys values) 0 0 0 1
key_value-flatten_example =
    key_value-flatten 1 1 2 1 1 0 0 0 1 keys values ((refl, ((refl, (refl, tt)), tt)), tt)
      ((refl, ((refl, (refl, (refl, tt))), tt)), tt) (omega arith) (omega arith) (omega arith)

-- by block, head, dimension and token, and by block, token, head and dimension
abbrev key_cache : Tensor ℕ
key_cache = record { shape = 1 ∷ 1 ∷ 1 ∷ 2 ∷ []; cells = λ index. 0 }

abbrev value_cache : Tensor ℕ
value_cache = record { shape = 1 ∷ 2 ∷ 1 ∷ 1 ∷ []; cells = λ index. 0 }

keys-AllRead : AllRead (keys_by_head views) 1
unfolding source_key nested_item
keys-AllRead zero zero zero zero hb hh hd ht = (1, refl)
keys-AllRead zero zero zero (suc zero) hb hh hd ht = (2, refl)
keys-AllRead zero zero zero (suc (suc t)) hb hh hd ht = absurd (omega arith)
keys-AllRead zero zero (suc d) t hb hh hd ht = absurd (omega arith)
keys-AllRead zero (suc h) d t hb hh hd ht = absurd (omega arith)
keys-AllRead (suc b) h d t hb hh hd ht = absurd (omega arith)

values-AllRead : AllRead (values_by_head views) 1
unfolding source_value nested_item
values-AllRead zero zero zero zero hb hh ht hd = (3, refl)
values-AllRead zero zero (suc zero) zero hb hh ht hd = (4, refl)
values-AllRead zero zero (suc (suc t)) d hb hh ht hd = absurd (omega arith)
values-AllRead zero zero t (suc d) hb hh ht hd = absurd (omega arith)
values-AllRead zero (suc h) t d hb hh ht hd = absurd (omega arith)
values-AllRead (suc b) h t d hb hh ht hd = absurd (omega arith)

write_separate_cache_total_example :
    (written : Tensor ℕ × Tensor ℕ) × (write_separate_cache (both key_cache value_cache) layer
      ≡ ok written)
    × Stored (keys_by_head views) (keys_by_token views) key_cache.shape 1 written.0
    × Stored (values_by_head views) (values_by_token views) value_cache.shape 1 written.1
unfolding layer_block_views inner_length first_length
write_separate_cache_total_example =
    write_separate_cache_total layer key_cache value_cache views 1 1 refl (inl refl) (inr refl)
      keys-AllRead values-AllRead

abbrev long_cache : Tensor ℕ
long_cache = record { shape = 2 ∷ 1 ∷ 1 ∷ 2 ∷ []; cells = λ index. 0 }

write_separate_cache_overrun_example :
    (e : Exc) × (write_separate_cache (both long_cache value_cache) layer ≡ raise e)
unfolding layer_block_views inner_length first_length
write_separate_cache_overrun_example =
    write_separate_cache_overrun layer long_cache value_cache views keys values 2 refl refl
      (inl refl) (omega arith) (omega arith) (omega arith) (omega arith)

abbrev storage : Value
storage = list (list (int 1 ∷ int 2 ∷ []) ∷ [])

shape_of_storage_ends_example :
    (EndsInScalar storage
      → nesting storage < 3
      → (dims : List ℕ) × (shape_of_storage 3 storage ≡ some dims)
        × (length dims ≡ nesting storage))
    × (¬ (EndsInScalar storage) → shape_of_storage 3 storage ≡ none)
shape_of_storage_ends_example = shape_of_storage_ends storage 3

abbrev empty_state : State
empty_state = record { registered = []; state_file = some none }

abbrev restarted : State
restarted = record (store_hash "aa" empty_state).1 { registered = [] }

verify_from_state-store_example :
    (missing : List String) × (verify_from_state ("bb" ∷ "aa" ∷ []) restarted ≡ ok missing)
    × (contains missing "aa" ≡ false)
unfolding store_hash write_state load_state_hashes
verify_from_state-store_example =
    verify_from_state-store "aa" ("bb" ∷ "aa" ∷ []) empty_state restarted (λ e. cc e) refl
      (next here (restart (store_hash "aa" empty_state).1))
