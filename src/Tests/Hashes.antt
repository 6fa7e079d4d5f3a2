-- ===== src/Tests/Hashes.antt =====
-- The theorems on hashes and nodes, at concrete objects.
use permeant_os.Prelude.{contains, ◌≡◌, ◌↔◌, refl, String, [], ◌∷◌}
use permeant_os.Py.Value.{str, obj, fields, Fields}
use permeant_os.Py.Result.{ok, ◌>>=◌}
use permeant_os.Py.Dict.{get_item}
use permeant_os.Graph.{
  canonical_graph_hash, seal, verify_graph, base_node, post_migration_node, node_content_payload,
}
use permeant_os.Graph.Seal.{verify_graph-seal, verify_graph_iff}
use permeant_os.Graph.Nodes.{IsPayload, IsCurrent, base_node-IsCurrent}
use permeant_os.Tests.{digest, graph, graph_fields, known}

verify_graph-seal_example :
    (do sealed ← seal digest graph; h ← get_item sealed "graph_hash"; verify_graph digest sealed h)
    ≡ ok tt
verify_graph-seal_example = verify_graph-seal digest graph_fields

verify_graph_iff_example : (verify_graph digest graph (str known) ≡ ok tt) ↔ (
    (h : String) × (canonical_graph_hash digest graph ≡ ok h)
    × (str known ≡ str h)
    × (get_item graph "graph_hash" ≡ ok (str h)))
verify_graph_iff_example = verify_graph_iff digest graph (str known)

abbrev payload : Fields
payload = fields (("name", str "fs.write_file") ∷ ("status", str "completed") ∷ [])

payload-IsPayload : IsPayload [] payload
unfolding contains
payload-IsPayload = (refl, refl, (refl, refl, tt))

base_node-IsCurrent_example :
    (IsCurrent digest (base_node digest "a" "tool_call" payload)
      × (node_content_payload (base_node digest "a" "tool_call" payload) ≡ obj payload))
    × (IsCurrent digest (post_migration_node digest "a" "tool_call" payload)
        × (node_content_payload (post_migration_node digest "a" "tool_call" payload) ≡ obj payload))
base_node-IsCurrent_example = base_node-IsCurrent digest "a" "tool_call" payload payload-IsPayload
