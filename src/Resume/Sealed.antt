-- ===== src/Resume/Sealed.antt =====
-- The graph that a resume leaves.
use permeant_os.Prelude.{refl, ℕ, String, ◌≡◌, ◌∙◌, List}
use permeant_os.Py.Value.{Value}
use permeant_os.Py.Result.{ok, ◌>>=◌, >>=-eq-ok}
use permeant_os.Py.Dict.{get_item, set_item, set_item-get_item}
use permeant_os.Graph.{verify_graph, append_to, append_post_migration_node}
use permeant_os.Graph.Seal.{seal_sound}
use permeant_os.Resume.Work.{finish_graph}

module _ (hexdigest : List ℕ → String) where
  -- If the resume can finish a graph, then the finished graph passes the hash check against the hash
  -- that it carries, and names the hash from before the resume as its source.
  pub finish_graph-sealed :
      (graph finished pre : Value)
      → finish_graph hexdigest graph pre ≡ ok finished
      → ((do h ← get_item finished "graph_hash"; verify_graph hexdigest finished h) ≡ ok tt)
        × (get_item finished "source_graph_id" ≡ ok pre)
  unfolding finish_graph
  finish_graph-sealed graph finished pre h =
      let (a, _, h1) = >>=-eq-ok (append_post_migration_node hexdigest graph _ _ _) _ h in
      let (i, _, h2) = >>=-eq-ok (get_item a "graph_id") _ h1 in
      let (b, _, h3) = >>=-eq-ok (append_to a "lineage" _) _ h2 in
      let (s, e, h4) = >>=-eq-ok (set_item b "source_graph_id" pre) _ h3 in
      let (verified, source) = seal_sound hexdigest "source_graph_id" s finished refl h4 in
      (verified, source ∙ set_item-get_item "source_graph_id" b s pre e)
