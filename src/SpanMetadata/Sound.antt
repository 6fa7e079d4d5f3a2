-- ===== src/SpanMetadata/Sound.antt =====
-- What a validation shows that returned.
use permeant_os.Prelude.{
  ℕ, String, ◌≡◌, true, not, eq_iff, List, ◌∷◌, All, some, ap, ◌∙◌, subst, length,
}
use permeant_os.Py.Value.{Value, int, str, arr, Items, cons, to_list, is_str}
use permeant_os.Py.Result.{ok, reject_if, reject_if-eq-ok, >>=-eq-ok}
use permeant_os.Py.Dict.{get}
use permeant_os.Py.Equal.{py_eq}
use permeant_os.Py.Text.{encode}
use permeant_os.Hashing.{sha256_bytes}
use permeant_os.Security.Tests.{of_not}
use permeant_os.SpanMetadata.{TokenId, ensure_sha256, require_text, token_hash}
use permeant_os.SpanMetadata.Hashes.{ensure_sha256_iff}
use permeant_os.SpanMetadata.Validate.{
  Expected, Bound, require_dict, require_list, token_ids_of, check_prompt, check_count,
  check_tokenizer, check_spans, check_expected_prompt, check_token_ids,
  validate_prompt_span_metadata,
}
use permeant_os.SpanMetadata.Named.{
  Covers, Names, require_list-eq-ok, check_spans_sound, check_prompt_sound,
}

module _ (hexdigest : List ℕ → String) where
  -- What the target holds has the hashes and the count of the metadata.
  pub record Matches (e : Expected) (b : Bound) : Type 0 where
    pub prompt : (q : String) → e.prompt ≡ some q → sha256_bytes hexdigest (encode q) ≡ b.byte_hash
    pub count : (n : Value) → e.token_count ≡ some n → py_eq n b.token_count ≡ true
    pub ids :
        (v : Value)
        → e.token_ids ≡ some v
        → (is : List TokenId) × (token_ids_of v ≡ ok is)
          × (token_hash hexdigest is ≡ ok b.token_hash)
          × (py_eq (int (length is)) b.token_count ≡ true)
    pub tokenizer : (v : Value) → e.tokenizer_hash ≡ some v → v ≡ str b.tokenizer_hash

  check_token_ids_sound :
      (b : Bound) (v : Value)
      → check_token_ids hexdigest b (some v) ≡ ok tt
      → (is : List TokenId) × (token_ids_of v ≡ ok is)
        × (token_hash hexdigest is ≡ ok b.token_hash)
        × (py_eq (int (length is)) b.token_count ≡ true)
  unfolding check_token_ids
  check_token_ids_sound b v h =
      let (is, e1, h1) = >>=-eq-ok (token_ids_of v) _ h in
      let (_, t1, h2) =
        >>=-eq-ok (reject_if (not (py_eq (int (length is)) b.token_count)) _) _ h1 in
      let (x, e2, t2) = >>=-eq-ok (token_hash hexdigest is) _ h2 in
      (
        is,
        e1,
        e2 ∙ ap ok ((eq_iff x b.token_hash).0 (of_not (reject_if-eq-ok _ _ t2))),
        of_not (reject_if-eq-ok _ _ t1),
      )

  check_tokenizer_sound :
      (b : Bound) (v : Value) → check_tokenizer b (some v) ≡ ok tt → v ≡ str b.tokenizer_hash
  unfolding check_tokenizer
  check_tokenizer_sound b v h =
      let (k, e, t) = >>=-eq-ok (ensure_sha256 _ v) _ h in
      ((ensure_sha256_iff _ k v).0 e).0
      ∙ ap str ((eq_iff k b.tokenizer_hash).0 (of_not (reject_if-eq-ok _ _ t)))

  check_expected-Matches :
      (e : Expected) (b : Bound)
      → check_expected_prompt hexdigest b e.prompt ≡ ok tt
      → check_count b e.token_count ≡ ok tt
      → check_token_ids hexdigest b e.token_ids ≡ ok tt
      → check_tokenizer b e.tokenizer_hash ≡ ok tt
      → Matches e b
  unfolding check_expected_prompt check_count
  check_expected-Matches e b p c i t = record {
    prompt = λ q known.
        (eq_iff (sha256_bytes hexdigest (encode q)) b.byte_hash).0
          (of_not (reject_if-eq-ok _ _ (rw known at p)));
    count = λ n known. of_not (reject_if-eq-ok _ _ (rw known at c));
    ids = λ v known. check_token_ids_sound b v (rw known at i);
    tokenizer = λ v known. check_tokenizer_sound b v (rw known at t);
  }

  -- If the validation returns, the metadata names a prompt by its hashes, each a digest, and by a
  -- positive count; whatever the target knows of its own prompt has these hashes and this count; and
  -- the metadata has spans, each of which covers that count under that tokenizer and has block hashes
  -- that are digests.
  pub validate_prompt_span_metadata_sound :
      (m r : Value) (e : Expected)
      → validate_prompt_span_metadata hexdigest m e ≡ ok r
      → (b : Bound) × (prompt first : Value) × (others : Items) × (get m "prompt" ≡ ok prompt)
        × Names prompt b
        × Matches e b
        × (get m "kv_spans" ≡ ok (arr (cons first others)))
        × All (Covers b) (first ∷ to_list others)
  unfolding validate_prompt_span_metadata
  validate_prompt_span_metadata_sound m r e h =
      let (_, _, h1) = >>=-eq-ok (require_dict _ m) _ h in
      let (version, _, h2) = >>=-eq-ok (get m "version") _ h1 in
      let (_, _, h3) = >>=-eq-ok (reject_if (not (is_str version "0.1")) _) _ h2 in
      let (runtime, _, h4) = >>=-eq-ok (get m "source_runtime") _ h3 in
      let (_, _, h5) = >>=-eq-ok (require_text _ runtime) _ h4 in
      let (model, _, h6) = >>=-eq-ok (get m "model_id") _ h5 in
      let (_, _, h7) = >>=-eq-ok (require_text _ model) _ h6 in
      let (prompt, e1, h8) = >>=-eq-ok (get m "prompt") _ h7 in
      let (b, e2, h9) = >>=-eq-ok (check_prompt prompt) _ h8 in
      let (_, p, h10) = >>=-eq-ok (check_expected_prompt hexdigest b e.prompt) _ h9 in
      let (_, c, h11) = >>=-eq-ok (check_count b e.token_count) _ h10 in
      let (_, i, h12) = >>=-eq-ok (check_token_ids hexdigest b e.token_ids) _ h11 in
      let (_, t, h13) = >>=-eq-ok (check_tokenizer b e.tokenizer_hash) _ h12 in
      let (listed, e3, h14) = >>=-eq-ok (get m "kv_spans") _ h13 in
      let (spans, e4, h15) = >>=-eq-ok (require_list _ listed) _ h14 in
      let (refs, e5, _) = >>=-eq-ok (check_spans 0 b spans) _ h15 in
      let (x, xs, e6, e7) = require_list-eq-ok _ listed spans e4 in
      (
        b,
        prompt,
        x,
        xs,
        e1,
        check_prompt_sound prompt b e2,
        check_expected-Matches e b p c i t,
        e3 ∙ ap ok e6,
        subst (All (Covers b)) e7 (check_spans_sound 0 b spans refs e5),
      )
