-- ===== src/SpanMetadata/Roundtrip.antt =====
-- The metadata that is built for a prompt, under the validation of a target that holds that prompt.
use permeant_os.Prelude.{
  ℕ, String, ◌≡◌, true, false, ◌==◌, List, [], ◌∷◌, Option, none, some, eqb, ap, sym, ◌∙◌, subst,
  length,
}
use permeant_os.Py.Value.{Value, int, str}
use permeant_os.Py.Result.{ok, reject_if, reject_if-eq-ok, >>=-eq-ok, ok-injective}
use permeant_os.Py.Text.{encode}
use permeant_os.Hashing.{sha256_bytes}
use permeant_os.SpanMetadata.{
  TokenId, ensure_sha256, require_text, token_hash, ensure_hashes, block_hashes_or, metadata_value,
  build_prompt_span_metadata,
}
use permeant_os.SpanMetadata.Hashes.{hex_digits}
use permeant_os.SpanMetadata.Validate.{Expected, span_report, validate_prompt_span_metadata}
use permeant_os.SpanMetadata.Accepts.{
  Agrees, require_text-eq-ok, ensure_sha256-eq-ok, bound, validate-metadata_value,
}

module _ (hexdigest : List ℕ → String)
    (hex : (bytes : List ℕ) → hex_digits 64 (hexdigest bytes) ≡ true) where
  block_hashes_or-cons :
      (given : Option (List Value)) (ids : List TokenId) (hashes : List Value)
      → block_hashes_or hexdigest given ids ≡ ok hashes
      → (v : Value) × (vs : List Value) × (hashes ≡ v ∷ vs)
  unfolding block_hashes_or
  block_hashes_or-cons none ids hashes e =
      let (h, _, same) = >>=-eq-ok (token_hash hexdigest ids) _ e in
      (str h, [], sym (ok-injective _ hashes same))
  block_hashes_or-cons (some []) ids hashes e =
      let (h, _, same) = >>=-eq-ok (token_hash hexdigest ids) _ e in
      (str h, [], sym (ok-injective _ hashes same))
  block_hashes_or-cons (some (v ∷ vs)) ids hashes e = (v, vs, sym (ok-injective _ hashes e))

  -- If the metadata of a prompt can be built, for a node and a cache reference with names, then a
  -- target that holds the same prompt accepts it, whichever of the prompt, the token count, the token
  -- ids and the tokenizer hash it compares, and reports the hashes and the count of that prompt.
  pub validate-build :
      (prompt tokenizer_hash model_id runtime m : Value) (ids : List TokenId)
      (cache_ref node_id : String) (given : Option (List Value))
      → (cache_ref == "") ≡ false
      → (node_id == "") ≡ false
      → build_prompt_span_metadata hexdigest prompt ids tokenizer_hash model_id runtime cache_ref
          node_id given
        ≡ ok m
      → (text tokenizer ids_hash : String) × (prompt ≡ str text)
        × (tokenizer_hash ≡ str tokenizer)
        × (token_hash hexdigest ids ≡ ok ids_hash)
        × ((e : Expected)
            → Agrees hexdigest hex e text ids tokenizer
            → validate_prompt_span_metadata hexdigest m e
              ≡ ok (
                  span_report
                    (record {
                      byte_hash = sha256_bytes hexdigest (encode text);
                      token_hash = ids_hash;
                      tokenizer_hash = tokenizer;
                      token_count = int (length ids);
                    })
                    1
                    (cache_ref ∷ [])
                    e))
  unfolding build_prompt_span_metadata
  validate-build prompt tokenizer_hash model_id runtime m ids cache_ref node_id given c n h =
      let (text, e1, h1) = >>=-eq-ok (require_text _ prompt) _ h in
      let (_, e2, h2) = >>=-eq-ok (reject_if (eqb (length ids) 0) _) _ h1 in
      let (model, e3, h3) = >>=-eq-ok (require_text _ model_id) _ h2 in
      let (source, e4, h4) = >>=-eq-ok (require_text _ runtime) _ h3 in
      let (tokenizer, e5, h5) = >>=-eq-ok (ensure_sha256 "tokenizer_hash" tokenizer_hash) _ h4 in
      let (hashes, e6, h6) = >>=-eq-ok (block_hashes_or hexdigest given ids) _ h5 in
      let (_, e7, h7) = >>=-eq-ok (ensure_hashes 0 0 hashes) _ h6 in
      let (ids_hash, e8, h8) = >>=-eq-ok (token_hash hexdigest ids) _ h7 in
      let (v, vs, cons) = block_hashes_or-cons given ids hashes e6 in
      let (known, well_formed) = ensure_sha256-eq-ok _ tokenizer tokenizer_hash e5 in
      (
        text,
        tokenizer,
        ids_hash,
        (require_text-eq-ok _ text prompt e1).0,
        known,
        e8,
        λ e a.
            subst
              (λ x.
                validate_prompt_span_metadata hexdigest x e
                ≡ ok (
                    span_report
                      (bound hexdigest hex text ids_hash tokenizer ids e8 well_formed
                        (reject_if-eq-ok _ _ e2))
                      1 (cache_ref ∷ []) e))
              (ap
                  (λ x.
                    metadata_value hexdigest source model text ids_hash ids tokenizer node_id
                      cache_ref x)
                  (sym cons)
                ∙ ok-injective _ m h8)
              (validate-metadata_value hexdigest hex text ids_hash tokenizer ids e8 well_formed
                (reject_if-eq-ok _ _ e2) node_id cache_ref n c v vs
                (subst (λ x. ensure_hashes 0 0 x ≡ ok tt) cons e7) source model e a
                (require_text-eq-ok _ source runtime e4).1
                (require_text-eq-ok _ model model_id e3).1),
      )
