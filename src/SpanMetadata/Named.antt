-- ===== src/SpanMetadata/Named.antt =====
-- What the checks of a prompt and of its spans show.
use permeant_os.Prelude.{
  ℕ, ◌+◌, String, ◌≡◌, refl, true, not, ◌||◌, List, [], ◌∷◌, All, arith, ap, sym, ◌∙◌, subst,
}
use permeant_os.Py.Value.{Value, int, str, arr, Items, cons, to_list, is_str}
use permeant_os.Py.Result.{ok, reject_if, reject_if-eq-ok, >>=-eq-ok, ok-injective}
use permeant_os.Py.Dict.{get, get_item, get-str}
use permeant_os.Py.Equal.{py_eq}
use permeant_os.Security.Tests.{of_not, text_known}
use permeant_os.SpanMetadata.{ensure_sha256, require_text, ensure_hashes, block_name}
use permeant_os.SpanMetadata.Hashes.{Digest, ensure_sha256_iff}
use permeant_os.SpanMetadata.Validate.{
  Bound, require_dict, require_list, is_positive, check_prompt, check_span, check_spans,
}

abbrev IsDigest : Value → Type 0
IsDigest v = (s : String) × (v ≡ str s) × Digest s

ensure_hashes_sound :
    (index i : ℕ) (hs : List Value) → ensure_hashes index i hs ≡ ok tt → All IsDigest hs
unfolding ensure_hashes
ensure_hashes_sound index i [] h = tt
ensure_hashes_sound index i (v ∷ hs) h =
    let (s, e, h1) = >>=-eq-ok (ensure_sha256 (block_name index i) v) _ h in
    let (same, d) = (ensure_sha256_iff _ s v).0 e in
    ((s, same, d), ensure_hashes_sound index (i + 1) hs h1)

pub require_list-eq-ok :
    (message : String) (v : Value) (vs : List Value)
    → require_list message v ≡ ok vs
    → (x : Value) × (xs : Items) × (v ≡ arr (cons x xs)) × (vs ≡ x ∷ to_list xs)
unfolding require_list
require_list-eq-ok message (arr (cons x xs)) vs h = (x, xs, refl, sym (ok-injective _ vs h))
require_list-eq-ok message _ vs h = cc h

-- A span covers the whole prompt, under the prompt's tokenizer, and has block hashes, each of them a
-- digest.
pub record Covers (b : Bound) (span : Value) : Type 0 where
  pub start : Value
  pub start_field : get span "token_start" ≡ ok start
  pub starts : py_eq start (int 0) ≡ true
  pub stop : Value
  pub stop_field : get span "token_end" ≡ ok stop
  pub stops : py_eq stop b.token_count ≡ true
  pub tokenizer : get_item span "tokenizer_hash" ≡ ok (str b.tokenizer_hash)
  pub first : Value
  pub others : Items
  pub blocks : get span "block_hashes" ≡ ok (arr (cons first others))
  pub digests : All IsDigest (first ∷ to_list others)

check_span_sound :
    (index : ℕ) (b : Bound) (span : Value) (r : String)
    → check_span index b span ≡ ok r
    → Covers b span
unfolding check_span
check_span_sound index b span r h =
    let (_, _, h1) = >>=-eq-ok (require_dict _ span) _ h in
    let (n, _, h2) = >>=-eq-ok (get span "node_id") _ h1 in
    let (_, _, h3) = >>=-eq-ok (require_text _ n) _ h2 in
    let (c, _, h4) = >>=-eq-ok (get span "cache_ref") _ h3 in
    let (_, _, h5) = >>=-eq-ok (require_text _ c) _ h4 in
    let (start, e1, h6) = >>=-eq-ok (get span "token_start") _ h5 in
    let (stop, e2, h7) = >>=-eq-ok (get span "token_end") _ h6 in
    let (_, t1, h8) =
      >>=-eq-ok (reject_if (not (py_eq start (int 0)) || not (py_eq stop b.token_count)) _) _ h7 in
    let off = reject_if-eq-ok _ _ t1 in
    let (k, e3, h9) = >>=-eq-ok (get span "tokenizer_hash") _ h8 in
    let (_, t2, h10) = >>=-eq-ok (reject_if (not (is_str k b.tokenizer_hash)) _) _ h9 in
    let (l, e4, h11) = >>=-eq-ok (get span "block_hashes") _ h10 in
    let (hs, e5, h12) = >>=-eq-ok (require_list _ l) _ h11 in
    let (_, e6, _) = >>=-eq-ok (ensure_hashes index 0 hs) _ h12 in
    let (x, xs, e7, e8) = require_list-eq-ok _ l hs e5 in
    record {
      start = start;
      start_field = e1;
      starts = ground arith;
      stop = stop;
      stop_field = e2;
      stops = ground arith;
      tokenizer =
          get-str span "tokenizer_hash" b.tokenizer_hash
            (e3 ∙ ap ok (text_known k b.tokenizer_hash _ t2));
      first = x;
      others = xs;
      blocks = e4 ∙ ap ok e7;
      digests = subst (All IsDigest) e8 (ensure_hashes_sound index 0 hs e6);
    }

pub check_spans_sound :
    (index : ℕ) (b : Bound) (spans : List Value) (rs : List String)
    → check_spans index b spans ≡ ok rs
    → All (Covers b) spans
unfolding check_spans
check_spans_sound index b [] rs h = tt
check_spans_sound index b (span ∷ spans) rs h =
    let (r, e, h1) = >>=-eq-ok (check_span index b span) _ h in
    let (more, k, _) = >>=-eq-ok (check_spans (index + 1) b spans) _ h1 in
    (check_span_sound index b span r e, check_spans_sound (index + 1) b spans more k)

-- The metadata names the hashes of its prompt, and a count that is positive.
pub record Names (prompt : Value) (b : Bound) : Type 0 where
  pub byte_hash : get_item prompt "byte_hash" ≡ ok (str b.byte_hash)
  pub byte_digest : Digest b.byte_hash
  pub token_hash : get_item prompt "token_hash" ≡ ok (str b.token_hash)
  pub token_digest : Digest b.token_hash
  pub tokenizer_hash : get_item prompt "tokenizer_hash" ≡ ok (str b.tokenizer_hash)
  pub token_count : get prompt "token_count" ≡ ok b.token_count
  pub positive : is_positive b.token_count ≡ true

pub check_prompt_sound : (prompt : Value) (b : Bound) → check_prompt prompt ≡ ok b → Names prompt b
unfolding check_prompt
check_prompt_sound prompt b h =
    let (_, _, h1) = >>=-eq-ok (require_dict _ prompt) _ h in
    let (v, e1, h2) = >>=-eq-ok (get prompt "byte_hash") _ h1 in
    let (bh, e2, h3) = >>=-eq-ok (ensure_sha256 "prompt.byte_hash" v) _ h2 in
    let (w, e3, h4) = >>=-eq-ok (get prompt "token_hash") _ h3 in
    let (th, e4, h5) = >>=-eq-ok (ensure_sha256 "prompt.token_hash" w) _ h4 in
    let (x, e5, h6) = >>=-eq-ok (get prompt "tokenizer_hash") _ h5 in
    let (kh, e6, h7) = >>=-eq-ok (ensure_sha256 "prompt.tokenizer_hash" x) _ h6 in
    let (n, e7, h8) = >>=-eq-ok (get prompt "token_count") _ h7 in
    let (_, t, h9) = >>=-eq-ok (reject_if (not (is_positive n)) _) _ h8 in
    let (v1, d1) = (ensure_sha256_iff _ bh v).0 e2 in
    let (w1, d2) = (ensure_sha256_iff _ th w).0 e4 in
    let (x1, d3) = (ensure_sha256_iff _ kh x).0 e6 in
    subst (Names prompt) (ok-injective _ b h9) (record {
      byte_hash = get-str prompt "byte_hash" bh (e1 ∙ ap ok v1);
      byte_digest = d1;
      token_hash = get-str prompt "token_hash" th (e3 ∙ ap ok w1);
      token_digest = d2;
      tokenizer_hash = get-str prompt "tokenizer_hash" kh (e5 ∙ ap ok x1);
      token_count = e7;
      positive = of_not (reject_if-eq-ok _ _ t);
    })
