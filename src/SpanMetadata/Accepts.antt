-- ===== src/SpanMetadata/Accepts.antt =====
-- The metadata of a prompt, check by check, under the validation of a target that holds that prompt.
use permeant_os.Prelude.{
  ℕ, String, ◌≡◌, refl, ◌⊎◌, inl, inr, true, false, ◌==◌, eq_iff, List, [], ◌∷◌, map, none, some,
  eqb, ap, sym, ◌∙◌, length, Bool-cases,
}
use permeant_os.Py.Value.{to_list-items, Value, int, neg, str, list, items, is_str_self, dict}
use permeant_os.Py.Result.{ok, reject_if, reject_if-eq-ok, >>=-eq-ok, ok-injective}
use permeant_os.Py.Dict.{get_or, lookup}
use permeant_os.Py.Equal.{py_eq-int_self}
use permeant_os.Py.Text.{encode}
use permeant_os.Hashing.{sha256_bytes}
use permeant_os.SpanMetadata.{
  TokenId, token, negative, sha256_re, ensure_sha256, require_text, token_hash, token_id_bytes,
  ensure_hashes, metadata_value,
}
use permeant_os.SpanMetadata.Hashes.{hex_digits, hex_to_end-hex_digits, sha256_re-prefix}
use permeant_os.SpanMetadata.Validate.{
  Expected, Bound, require_dict, require_list, is_positive, ids_of, token_ids_of, check_prompt,
  check_count, check_tokenizer, check_span, check_spans, span_report, check_expected_prompt,
  check_token_ids, validate_prompt_span_metadata,
}

-- An integer of a JSON list.
abbrev pub int_value : TokenId → Value
int_value (token n) = int n
int_value (negative n) = neg n

ids_of-int_value : (ids : List TokenId) → ids_of (items (map int_value ids)) ≡ some ids
unfolding ids_of
ids_of-int_value [] = refl
ids_of-int_value (token n ∷ ids) = rw (ids_of-int_value ids)
ids_of-int_value (negative n ∷ ids) = rw (ids_of-int_value ids)

pub require_text-eq-ok :
    (message s : String) (v : Value)
    → require_text message v ≡ ok s
    → (v ≡ str s) × ((s == "") ≡ false)
unfolding require_text
require_text-eq-ok message s (str t) h =
    let (_, e, same) = >>=-eq-ok (reject_if (t == "") _) _ h in
    let q : t ≡ s = ok-injective t s same in
    (ap str q, ap (λ x. x == "") (sym q) ∙ reject_if-eq-ok _ _ e)
require_text-eq-ok message s _ h = cc h

pub require_text-str :
    (message s : String) → (s == "") ≡ false → require_text message (str s) ≡ ok s
unfolding require_text
require_text-str message s h = rw h

pub ensure_sha256-eq-ok :
    (name s : String) (v : Value) → ensure_sha256 name v ≡ ok s → (v ≡ str s) × (sha256_re s ≡ true)
unfolding ensure_sha256
ensure_sha256-eq-ok name s (str t) h = elim (Bool-cases (sha256_re t)) [
  | inl e ↦
      let same : t ≡ s = ok-injective t s (rw e at h) in (ap str same, ap sha256_re (sym same) ∙ e)
  | inr n ↦ cc (rw n at h)
]
ensure_sha256-eq-ok name s _ h = cc h

ensure_sha256-str : (name s : String) → sha256_re s ≡ true → ensure_sha256 name (str s) ≡ ok s
unfolding ensure_sha256
ensure_sha256-str name s h = rw h

module _ (hexdigest : List ℕ → String)
    (hex : (bytes : List ℕ) → hex_digits 64 (hexdigest bytes) ≡ true) where
  sha256_re-sha256_bytes : (bytes : List ℕ) → sha256_re (sha256_bytes hexdigest bytes) ≡ true
  unfolding sha256_bytes
  sha256_re-sha256_bytes bytes =
      sha256_re-prefix (hexdigest bytes) (hex_to_end-hex_digits 64 (hexdigest bytes) (hex bytes))

  sha256_re-token_hash :
      (ids : List TokenId) (h : String) → token_hash hexdigest ids ≡ ok h → sha256_re h ≡ true
  unfolding token_hash
  sha256_re-token_hash ids h e =
      let (bytes, _, same) = >>=-eq-ok (token_id_bytes ids) _ e in
      ap sha256_re (sym (ok-injective _ h same)) ∙ sha256_re-sha256_bytes bytes

  -- Of its own prompt the target knows nothing false: each fact is left out, or is that of the source.
  pub record Agrees (e : Expected) (prompt : String) (ids : List TokenId) (tokenizer : String)
      : Type 0 where
    pub prompt_known : (e.prompt ≡ none) ⊎ (e.prompt ≡ some prompt)
    pub count_known : (e.token_count ≡ none) ⊎ (e.token_count ≡ some (int (length ids)))
    pub ids_known : (e.token_ids ≡ none) ⊎ (e.token_ids ≡ some (list (map int_value ids)))
    pub tokenizer_known : (e.tokenizer_hash ≡ none) ⊎ (e.tokenizer_hash ≡ some (str tokenizer))

  module _ (prompt ids_hash tokenizer : String) (ids : List TokenId)
      (hashed : token_hash hexdigest ids ≡ ok ids_hash) (known : sha256_re tokenizer ≡ true)
      (nonempty : eqb (length ids) 0 ≡ false) where
    abbrev pub bound : Bound
    bound = record {
      byte_hash = sha256_bytes hexdigest (encode prompt);
      token_hash = ids_hash;
      tokenizer_hash = tokenizer;
      token_count = int (length ids);
    }

    module _ (e : Expected) (a : Agrees e prompt ids tokenizer) where
      check_expected_prompt-ok : check_expected_prompt hexdigest bound e.prompt ≡ ok tt
      unfolding check_expected_prompt
      check_expected_prompt-ok = elim a.prompt_known [
        | inl n ↦ rw n
        | inr s ↦ rw (s, (eq_iff (sha256_bytes hexdigest (encode prompt)) _).1 refl)
      ]

      check_count-ok : check_count bound e.token_count ≡ ok tt
      unfolding check_count
      check_count-ok = elim a.count_known [ inl n ↦ rw n | inr s ↦ rw (s, py_eq-int_self) ]

      check_token_ids-ok : check_token_ids hexdigest bound e.token_ids ≡ ok tt
      unfolding check_token_ids token_ids_of
      check_token_ids-ok = elim a.ids_known [
        | inl n ↦ rw n
        | inr s ↦ rw (s, ids_of-int_value ids, py_eq-int_self, hashed, (eq_iff ids_hash _).1 refl)
      ]

      check_tokenizer-ok : check_tokenizer bound e.tokenizer_hash ≡ ok tt
      unfolding check_tokenizer
      check_tokenizer-ok = elim a.tokenizer_known [
        | inl n ↦ rw n
        | inr s ↦ rw (s, ensure_sha256-str _ tokenizer known, (eq_iff tokenizer _).1 refl)
      ]

    check_prompt-ok :
        check_prompt (
          dict (
            ("byte_hash", str (sha256_bytes hexdigest (encode prompt)))
            ∷ ("token_hash", str ids_hash)
            ∷ ("token_count", int (length ids))
            ∷ ("tokenizer_hash", str tokenizer)
            ∷ []))
        ≡ ok bound
    unfolding check_prompt require_dict get_or lookup is_positive
    check_prompt-ok = rw (
      ensure_sha256-str "prompt.byte_hash" _ (sha256_re-sha256_bytes (encode prompt)),
      ensure_sha256-str "prompt.token_hash" ids_hash (sha256_re-token_hash ids ids_hash hashed),
      ensure_sha256-str "prompt.tokenizer_hash" tokenizer known,
      nonempty,
    )

    module _ (node_id cache_ref : String) (named : (node_id == "") ≡ false)
        (referred : (cache_ref == "") ≡ false) (v : Value) (vs : List Value)
        (blocks : ensure_hashes 0 0 (v ∷ vs) ≡ ok tt) where
      check_spans-ok :
          check_spans 0 bound (
            dict (
              ("node_id", str node_id)
              ∷ ("token_start", int 0)
              ∷ ("token_end", int (length ids))
              ∷ ("cache_ref", str cache_ref)
              ∷ ("tokenizer_hash", str tokenizer)
              ∷ ("block_hashes", list (v ∷ vs))
              ∷ [])
            ∷ [])
          ≡ ok (cache_ref ∷ [])
      unfolding check_spans check_span require_dict require_list get_or lookup
      check_spans-ok = rw (
        require_text-str _ node_id named,
        require_text-str _ cache_ref referred,
        py_eq-int_self 0,
        py_eq-int_self (length ids),
        is_str_self tokenizer,
        to_list-items vs,
        blocks,
      )

      pub validate-metadata_value :
          (runtime model : String) (e : Expected)
          → Agrees e prompt ids tokenizer
          → (runtime == "") ≡ false
          → (model == "") ≡ false
          → validate_prompt_span_metadata hexdigest
              (metadata_value hexdigest runtime model prompt ids_hash ids tokenizer node_id
                cache_ref
                (v ∷ vs))
              e
            ≡ ok (span_report bound 1 (cache_ref ∷ []) e)
      unfolding validate_prompt_span_metadata metadata_value require_dict require_list get_or lookup
      validate-metadata_value runtime model e a r m = rw (
        require_text-str _ runtime r,
        require_text-str _ model m,
        check_prompt-ok,
        check_expected_prompt-ok e a,
        check_count-ok e a,
        check_token_ids-ok e a,
        check_tokenizer-ok e a,
        check_spans-ok,
      )
