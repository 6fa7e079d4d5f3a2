-- ===== src/HashRegistry/Durable.antt =====
-- What stays registered: through later registrations, and through restarts of the process if there
-- is a state file.
use permeant_os.Prelude.{
  Option-cases, ◌⊎◌, String, true, false, ◌||◌, List, [], ◌∷◌, ◌++◌, none, some, contains, ◌==◌,
  ◌≡◌, ◌≢◌, refl, eq_iff, arith, ap, sym, ◌∙◌, Bool-cases, inl, inr,
}
use permeant_os.Py.Value.{items}
use permeant_os.Py.Result.{ok, Result-cases, ok-injective}
use permeant_os.Py.Dict.{get_or, lookup}
use permeant_os.Py.SortedSet.{sorted_set, texts, contains-sorted_set}
use permeant_os.HashRegistry.{
  State, strings_of, hashes_in, load_payload, load_state_hashes, add_hash, state_value, write_state,
  store_hash, missing_from, verify_from_state,
}

strings_of-texts : (ss : List String) → strings_of (items (texts ss)) ≡ ss
unfolding strings_of
strings_of-texts [] = refl
strings_of-texts (s ∷ ss) = ap (λ x. s ∷ x) (strings_of-texts ss)

-- What is written to the state file is what is read from it.
load-state_value :
    (hashes : List String) → load_payload (state_value hashes) ≡ ok (sorted_set hashes)
unfolding load_payload hashes_in get_or lookup state_value
load-state_value hashes = ap ok (strings_of-texts (sorted_set hashes))

contains-add_hash :
    (h x : String) (hs : List String) → contains (add_hash h hs) x ≡ (h == x || contains hs x)
unfolding add_hash contains
contains-add_hash h x hs = elim (Bool-cases (contains hs h)) [
  | inr fresh ↦ rw fresh
  | inl old ↦ rw old (ground (arith, eq_iff h x))
]

contains-append :
    (x : String) (hs ks : List String) → contains (hs ++ ks) x ≡ (contains hs x || contains ks x)
unfolding contains
contains-append x [] ks = refl
contains-append x (h ∷ hs) ks = ground (arith, contains-append x hs ks)

missing_from-available :
    (available hs : List String) (h : String)
    → contains available h ≡ true
    → contains (missing_from available hs) h ≡ false
unfolding missing_from contains
missing_from-available available [] h a = refl
missing_from-available available (k ∷ hs) h a = elim (Bool-cases (contains available k)) [
  | inl there ↦ rw there (missing_from-available available hs h a)
  | inr gone ↦ rw gone (elim (Bool-cases (k == h)) [
    | inl same ↦ cc (gone, a, (eq_iff k h).0 same)
    | inr other ↦ rw other (missing_from-available available hs h a)
  ])
]

-- The state file can be read and holds the hash.
pub record Kept (h : String) (st : State) : Type 0 where
  pub named : st.state_file ≢ none
  pub hashes : List String
  pub loaded : load_state_hashes st.state_file ≡ ok hashes
  pub held : contains hashes h ≡ true

-- What happens to the state: a hash is stored, or the process starts again.
pub data Step : State → State → Type 0 where
  store : (k : String) (st : State) → (store_hash k st).0 ≡ ok tt → Step st (store_hash k st).1
  restart : (st : State) → Step st (record st { registered = [] })

pub data Reach (st : State) : State → Type 0 where
  here : Reach st st
  next : {t u : State} → Reach st t → Step t u → Reach st u

-- What storing a hash leaves in a state file that is named.
store_hash-loaded :
    (k : String) (st : State)
    → st.state_file ≢ none
    → (store_hash k st).0 ≡ ok tt
    → (existing : List String) × (load_state_hashes st.state_file ≡ ok existing)
      × ((store_hash k st).1.state_file ≡ some (some (state_value (add_hash k existing))))
unfolding store_hash write_state
store_hash-loaded k st n h = elim (Option-cases st.state_file) [
  | inl absent ↦ absurd (n absent)
  | inr (file, named) ↦ elim (Result-cases (load_state_hashes (some file))) [
    | inr (e, bad) ↦ cc (rw (named, store_hash, bad, write_state) at h)
    | inl (existing, good) ↦ (
      existing,
      ap load_state_hashes named ∙ good,
      rw (named, store_hash, good, write_state) refl,
    )
  ]
]

-- The hash that was stored is kept, and so is one that was kept before.
store_hash-Kept :
    (h k : String) (st : State)
    → st.state_file ≢ none
    → (store_hash k st).0 ≡ ok tt
    → (k == h ≡ true) ⊎ Kept h st
    → Kept h (store_hash k st).1
unfolding load_state_hashes
store_hash-Kept h k st n returns which =
    let (existing, loaded, written) = store_hash-loaded k st n returns in
    record {
      named = λ e. cc (written, e);
      hashes = sorted_set (add_hash k existing);
      loaded = ap load_state_hashes written ∙ load-state_value (add_hash k existing);
      held =
          contains-sorted_set (add_hash k existing) h
          ∙ contains-add_hash k h existing
          ∙ elim which [
            | inl same ↦ rw same refl
            | inr kept ↦
                let agree : existing ≡ kept.hashes =
                  ok-injective existing kept.hashes (sym loaded ∙ kept.loaded) in
                let inside : contains existing h ≡ true =
                  ap (λ x. contains x h) agree ∙ kept.held in
                ground arith
          ];
    }

Step-Kept : {h : String} {st st' : State} → Step st st' → Kept h st → Kept h st'
Step-Kept {h} (store k st returns) kept = store_hash-Kept h k st kept.named returns (inr kept)
Step-Kept (restart st) kept = record {
  named = kept.named;
  hashes = kept.hashes;
  loaded = kept.loaded;
  held = kept.held;
}

Reach-Kept : {h : String} {st st' : State} → Kept h st → Reach st st' → Kept h st'
Reach-Kept kept here = kept
Reach-Kept kept (next r step) = Step-Kept step (Reach-Kept kept r)

-- If a state file is named and a hash was stored, then after any further stores and restarts the
-- verification of any hashes returns, and does not report that hash as missing.
pub verify_from_state-store :
    (h : String) (hs : List String) (st st' : State)
    → st.state_file ≢ none
    → (store_hash h st).0 ≡ ok tt
    → Reach (store_hash h st).1 st'
    → (missing : List String) × (verify_from_state hs st' ≡ ok missing)
      × (contains missing h ≡ false)
unfolding verify_from_state
verify_from_state-store h hs st st' n returns r =
    let kept : Kept h st' =
      Reach-Kept (store_hash-Kept h h st n returns (inl ((eq_iff h h).1 refl))) r in
    let available : List String = st'.registered ++ kept.hashes in
    (
      missing_from available hs,
      rw kept.loaded,
      missing_from-available available hs h
          (contains-append h st'.registered kept.hashes ∙ rw kept.held (ground arith)),
    )
