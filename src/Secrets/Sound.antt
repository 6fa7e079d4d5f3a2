-- ===== src/Secrets/Sound.antt =====
-- The search finds nothing exactly in the values that have no forbidden key at any depth.
use permeant_os.Prelude.{
  ℕ, ◌+◌, String, ◌<>◌, ◌≡◌, ◌↔◌, refl, Bool, true, false, List, [], ◌∷◌, ◌++◌, if◌then◌else◌,
  Bool-cases, inl, inr, ◌⊎◌,
}
use mathlib.Core.List.{append-eq-nil_iff}
use permeant_os.Py.Text.{decimal}
use permeant_os.Py.Value.{
  Value, null, bool, int, neg, float, str, arr, obj, Fields, end, field, Items, nil, cons,
}
use permeant_os.Secrets.Keys.{IsForbidden, is_forbidden_key_iff}
use permeant_os.Secrets.{
  is_forbidden_key, find_forbidden, find_in_items, find_in_fields, find_forbidden_secret_material,
}

mutual
  pub data HasSecret : Value → Type 0 where
    in_list : {vs : Items} → ItemsHaveSecret vs → HasSecret (arr vs)
    in_object : {fs : Fields} → FieldsHaveSecret fs → HasSecret (obj fs)

  pub data ItemsHaveSecret : Items → Type 0 where
    here : {v : Value} {vs : Items} → HasSecret v → ItemsHaveSecret (cons v vs)
    later : {v : Value} {vs : Items} → ItemsHaveSecret vs → ItemsHaveSecret (cons v vs)

  pub data FieldsHaveSecret : Fields → Type 0 where
    key : {k : String} {v : Value} {fs : Fields} → IsForbidden k → FieldsHaveSecret (field k v fs)
    value : {k : String} {v : Value} {fs : Fields} → HasSecret v → FieldsHaveSecret (field k v fs)
    rest :
        {k : String} {v : Value} {fs : Fields}
        → FieldsHaveSecret fs
        → FieldsHaveSecret (field k v fs)

both_nil : {xs ys : List String} → xs ++ ys ≡ [] → (xs ≡ []) × (ys ≡ [])
both_nil = append-eq-nil_iff.0

key_found :
    (b : Bool) (x : String) (ys : List String)
    → b ≡ true
    → (if b then x ∷ [] else []) ++ ys ≡ []
    → ⊥
key_found true x ys h e = cc
key_found false x ys h e = cc

mutual
  unfolding find_forbidden

  found : {v : Value} → HasSecret v → (p : String) → find_forbidden v p ≡ [] → ⊥
  found (in_list h) p e = found_items h p 0 e
  found (in_object h) p e = found_fields h p e

  found_items :
      {vs : Items} → ItemsHaveSecret vs → (p : String) (i : ℕ) → find_in_items vs p i ≡ [] → ⊥
  found_items (here h) p i e = found h _ (both_nil e).0
  found_items (later h) p i e = found_items h p (i + 1) (both_nil e).1

  found_fields : {fs : Fields} → FieldsHaveSecret fs → (p : String) → find_in_fields fs p ≡ [] → ⊥
  found_fields (key {k} h) p e = key_found _ _ _ ((is_forbidden_key_iff k).1 h) e
  found_fields (value h) p e = found h _ (both_nil (both_nil e).1).0
  found_fields (rest h) p e = found_fields h p (both_nil (both_nil e).1).1

mutual
  unfolding find_forbidden

  search_value : (v : Value) (p : String) → (find_forbidden v p ≡ []) ⊎ HasSecret v
  search_value null p = inl refl
  search_value (bool b) p = inl refl
  search_value (int n) p = inl refl
  search_value (neg n) p = inl refl
  search_value (float r) p = inl refl
  search_value (str s) p = inl refl
  search_value (arr vs) p = elim (search_items vs p 0) [ inl e ↦ inl e | inr h ↦ inr (in_list h) ]
  search_value (obj fs) p = elim (search_fields fs p) [ inl e ↦ inl e | inr h ↦ inr (in_object h) ]

  search_items :
      (vs : Items) (p : String) (i : ℕ) → (find_in_items vs p i ≡ []) ⊎ ItemsHaveSecret vs
  search_items nil p i = inl refl
  search_items (cons v vs) p i =
      let first = search_value v (p <> "[" <> decimal i <> "]") in
      elim (search_items vs p (i + 1)) [
        | inl e ↦ elim first [ inl d ↦ inl (append-eq-nil_iff.1 (d, e)) | inr h ↦ inr (here h) ]
        | inr h ↦ inr (later h)
      ]

  search_fields : (fs : Fields) (p : String) → (find_in_fields fs p ≡ []) ⊎ FieldsHaveSecret fs
  search_fields end p = inl refl
  search_fields (field k v fs) p =
      let first = search_value v (p <> "." <> k) in
      elim (search_fields fs p) [
        | inl e ↦ elim first [
          | inl d ↦ elim (Bool-cases (is_forbidden_key k)) [
            | inl h ↦ inr (key ((is_forbidden_key_iff k).0 h))
            | inr h ↦ inl (rw (h, d, e))
          ]
          | inr h ↦ inr (value h)
        ]
        | inr h ↦ inr (rest h)
      ]

-- The search reports nothing for a value exactly when no object in it, at any depth, has a key that
-- is one of the forbidden keys in some mixture of capital and small letters, where the Kelvin sign
-- counts as a capital k.
pub find_forbidden_secret_material_iff :
    (v : Value) → (find_forbidden_secret_material v ≡ []) ↔ ¬ (HasSecret v)
unfolding find_forbidden_secret_material
find_forbidden_secret_material_iff v =
    (λ e h. found h "$" e, λ n. elim (search_value v "$") [ inl e ↦ e | inr h ↦ absurd (n h) ])
