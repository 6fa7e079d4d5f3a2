-- ===== src/KvCache/Separated.antt =====
-- `_write_separate_cache` as a whole: what it writes, and what it asks of the caches.
use permeant_os.Prelude.{ℕ, ◌<◌, ◌≡◌, ◌∙◌, ◌⊎◌, inl, inr, refl, sym, ap, List, [], ◌∷◌, length}
use permeant_os.Py.Result.{Exc, ok, raise, ◌>>=◌, >>=-eq-ok, Result-cases}
use permeant_os.KvCache.{Blocks, Tensor, Layer, Views, nested, layer_block_views, nested_item, item}
use permeant_os.KvCache.Separate.{
  keys_by_head, keys_by_token, values_by_head, values_by_token, source_key, write_keys,
  write_values, both, write_separate_cache,
}
use permeant_os.KvCache.Orders.{HasShape, Stored, AllRead, fill_either-written, fill_either-Blocks}

-- If the caches have one of the two shapes that each is written in, and every key and value of the
-- layer can be read for as many blocks as they have, then the write returns, and at each index the
-- caches then hold the key and the value that the layer has there.
pub write_separate_cache_total :
    {E : Type 0} (layer : Layer E) (keys values : Tensor E) (v : Views E) (n m : ℕ)
    → layer_block_views layer ≡ ok v
    → HasShape (keys_by_head v) keys.shape n ⊎ HasShape (keys_by_token v) keys.shape n
    → HasShape (values_by_head v) values.shape m ⊎ HasShape (values_by_token v) values.shape m
    → AllRead (keys_by_head v) n
    → AllRead (values_by_head v) m
    → (written : Tensor E × Tensor E) × (write_separate_cache (both keys values) layer ≡ ok written)
      × Stored (keys_by_head v) (keys_by_token v) keys.shape n written.0
      × Stored (values_by_head v) (values_by_token v) values.shape m written.1
unfolding write_separate_cache write_keys write_values
write_separate_cache_total layer keys values v n m e1 ek ev rk rv =
    let (keys', h1) =
      fill_either-written "unsupported key cache layout {}" (keys_by_head v) (keys_by_token v)
        keys.shape n keys ek refl rk (λ b t h d hb ht hh hd. rk b h d t hb hh hd ht) in
    let (values', h2) =
      fill_either-written "unsupported value cache layout {}" (values_by_head v) (values_by_token v)
        values.shape m values ev refl rv (λ b t h d hb ht hh hd. rv b h t d hb hh ht hd) in
    (
      (keys', values'),
      rw (e1, h1, h2) refl,
      fill_either-Blocks _ (keys_by_head v) (keys_by_token v) keys.shape n keys keys' ek h1,
      fill_either-Blocks _ (values_by_head v) (values_by_token v) values.shape m values values' ev
          h2,
    )

item-length {ℓ} : {A : Type ℓ} (xs : List A) (x : A) → ¬ (item xs (length xs) ≡ ok x)
item-length [] x h = cc h
item-length (y ∷ ys) x h = item-length ys x h

-- If a key cache has more blocks than the nested keys of a layer with heads, dimensions and tokens,
-- then the write raises, whatever the value cache is.
pub write_separate_cache_overrun :
    {E : Type 0} (layer : Layer E) (keys values : Tensor E) (v : Views E) (ks vs : Blocks E) (n : ℕ)
    → layer_block_views layer ≡ ok v
    → v.source ≡ nested ks vs
    → HasShape (keys_by_head v) keys.shape n ⊎ HasShape (keys_by_token v) keys.shape n
    → length ks < n
    → 0 < v.kv_heads
    → 0 < v.head_dim
    → 0 < v.block_size
    → (e : Exc) × (write_separate_cache (both keys values) layer ≡ raise e)
unfolding write_separate_cache write_keys source_key nested_item
write_separate_cache_overrun layer keys values v ks vs n e1 es ek long hh hd ht =
    elim (Result-cases (write_separate_cache (both keys values) layer)) [
      | inr raised ↦ raised
      | inl (written, h) ↦
          let (keys', h1, _) =
            >>=-eq-ok (write_keys v keys.shape keys)
              (λ keys'. write_values v values.shape values >>= λ values'. ok (keys', values'))
              (rw e1 at h) in
          let read : (x : _) × (source_key v.source (length ks) 0 0 0 ≡ ok x) =
            elim (fill_either-Blocks _ (keys_by_head v) (keys_by_token v) keys.shape n keys keys' ek
              h1) [
                | inl (_, filled) ↦
                    let p = filled (length ks) 0 long hh 0 0 hd ht in (p.found, p.at)
                | inr (_, filled) ↦
                    let p = filled (length ks) 0 long ht 0 0 hh hd in (p.found, p.at)
              ] in
          let (x, e) = read in
          let (row, e2, _) =
            >>=-eq-ok (item ks (length ks)) _
              (ap (λ s. source_key s (length ks) 0 0 0) (sym es) ∙ e) in
          absurd (item-length ks row e2)
    ]
