-- ===== src/Graph/Nodes.antt =====
-- Nodes: the content hash that a node carries is the hash of the payload that it carries.
use permeant_os.Prelude.{
  ℕ, String, ◌≡◌, refl, true, false, List, [], ◌∷◌, arith, eq_iff, contains, none, some, ◌∙◌,
}
use permeant_os.Py.Value.{Value, str, obj, Fields, end, field}
use permeant_os.Py.Dict.{lookup, insert, merge, lookup-insert}
use permeant_os.Hashing.{sha256_json}
use permeant_os.Graph.{
  base_node, post_migration_node, refresh_node_content_hash, node_content_payload, without_reserved,
  reserved_keys,
}

-- The keys of the payload are distinct, and none is a key that a node has of itself. The list is of
-- the keys that stand before.
abbrev pub IsPayload : List String → Fields → Type 0
IsPayload seen end = Unit
IsPayload seen (field k v gs) =
    (contains reserved_keys k ≡ false) × (contains seen k ≡ false) × IsPayload (k ∷ seen) gs

-- The object has no keys but reserved ones and those of the list.
abbrev Within : List String → Fields → Type 0
Within seen fs =
    (k : String) → contains reserved_keys k ≡ false → contains seen k ≡ false → lookup k fs ≡ none

abbrev append : Fields → Fields → Fields
append end gs = gs
append (field k v fs) gs = field k v (append fs gs)

insert-new :
    (k : String) (v : Value) (fs gs : Fields)
    → lookup k fs ≡ none
    → append (insert k v fs) gs ≡ append fs (field k v gs)
unfolding lookup insert
insert-new k v end gs h = refl
insert-new k v (field j w fs) gs h = ground (arith, insert-new k v fs gs)

append-end : (fs : Fields) → append fs end ≡ fs
append-end end = refl
append-end (field k v fs) = rw (append-end fs)

Within-insert :
    (seen : List String) (k : String) (v : Value) (fs : Fields)
    → Within seen fs
    → Within (k ∷ seen) (insert k v fs)
unfolding contains
Within-insert seen k v fs w j r s = rw (lookup-insert k j v fs) (ground (arith, w j r))

merge-new :
    (seen : List String) (fs gs : Fields)
    → Within seen fs
    → IsPayload seen gs
    → merge fs gs ≡ append fs gs
unfolding merge
merge-new seen fs end w h = rw (append-end fs)
merge-new seen fs (field k v gs) w h =
    merge-new (k ∷ seen) (insert k v fs) gs (Within-insert seen k v fs w) h.2
    ∙ insert-new k v fs gs (w k h.0 h.1)

without_reserved-payload :
    (seen : List String) (gs : Fields) → IsPayload seen gs → without_reserved gs ≡ gs
unfolding without_reserved
without_reserved-payload seen end h = refl
without_reserved-payload seen (field k v gs) h =
    rw h.0 (rw (without_reserved-payload (k ∷ seen) gs h.2))

reserved_content_hash : contains reserved_keys "content_hash" ≡ true
unfolding contains
reserved_content_hash = refl

without_reserved-insert :
    (k : String) (v : Value) (fs : Fields)
    → contains reserved_keys k ≡ true
    → without_reserved (insert k v fs) ≡ without_reserved fs
unfolding without_reserved insert
without_reserved-insert k v end h = rw h
without_reserved-insert k v (field j w fs) h =
    ground (arith, eq_iff j k, without_reserved-insert k v fs)

module _ (hexdigest : List ℕ → String) where
  -- The content hash of the node is the hash of its content.
  abbrev pub IsCurrent : Fields → Type 0
  IsCurrent node =
      lookup "content_hash" node ≡ some (str (sha256_json hexdigest (node_content_payload node)))

  abbrev own : String → String → String → Value → Fields → Fields
  own id kind created provenance payload = field "id" (str id) (
      field "type" (str kind) (
        field "created_at" (str created) (
          field "content_hash" (str (sha256_json hexdigest (obj payload)))
            (field "provenance" provenance end))))

  own-Within :
      (id kind created : String) (p : Value) (payload : Fields)
      → Within [] (own id kind created p payload)
  unfolding lookup contains
  own-Within id kind created p payload k r s = ground arith

  merge-IsCurrent :
      (id kind created : String) (p : Value) (payload : Fields)
      → IsPayload [] payload
      → IsCurrent (merge (own id kind created p payload) payload)
        × (node_content_payload (merge (own id kind created p payload) payload) ≡ obj payload)
  unfolding lookup node_content_payload without_reserved contains
  merge-IsCurrent id kind created p payload h =
      rw (merge-new [] _ payload (own-Within id kind created p payload) h)
        (rw (without_reserved-payload [] payload h) (refl, refl))

  -- A node that `base_node` or `append_post_migration_node` builds from a payload with distinct keys,
  -- none of them one that it adds, has exactly that payload as its content, and a current hash.
  pub base_node-IsCurrent :
      (id kind : String) (payload : Fields)
      → IsPayload [] payload
      → (IsCurrent (base_node hexdigest id kind payload)
          × (node_content_payload (base_node hexdigest id kind payload) ≡ obj payload))
        × (IsCurrent (post_migration_node hexdigest id kind payload)
            × (node_content_payload (post_migration_node hexdigest id kind payload) ≡ obj payload))
  unfolding base_node post_migration_node
  base_node-IsCurrent id kind payload h =
      (merge-IsCurrent id kind _ _ payload h, merge-IsCurrent id kind _ _ payload h)

  -- `refresh_node_content_hash` makes the hash of any object current, and leaves its content.
  pub refresh-IsCurrent :
      (node : Fields)
      → IsCurrent (refresh_node_content_hash hexdigest node)
        × (node_content_payload (refresh_node_content_hash hexdigest node)
            ≡ node_content_payload node)
  unfolding refresh_node_content_hash node_content_payload
  refresh-IsCurrent node =
      rw (lookup-insert, without_reserved-insert "content_hash" _ node reserved_content_hash)
        (refl, refl)
