-- ===== src/Tests/Resuming.antt =====
-- The theorems on the resume, at a small package and graph.
use permeant_os.Prelude.{[], ◌∷◌, ◌≡◌, ◌≢◌, refl, false, some}
use permeant_os.Py.Value.{Value, str, dict, list}
use permeant_os.Py.Result.{ok, ◌>>=◌}
use permeant_os.Py.Dict.{lookup, get_item, set_item, pop, insert}
use permeant_os.Constants.{runtime_id}
use permeant_os.Graph.{
  verify_graph, seal, canonical_graph_hash, append_to, append_post_migration_node,
}
use permeant_os.Files.{read}
use permeant_os.Artifacts.Restore.{Below}
use permeant_os.Import.{Continued, import_session, workspace_or}
use permeant_os.Resume.Work.{finish_graph}
use permeant_os.Resume.{Activity, resume_imported_agent}
use permeant_os.Resume.Effects.{resume_imported_agent_writes, resumed_graph, report_file}
use permeant_os.Resume.Sealed.{finish_graph-sealed}
use permeant_os.Tests.{digest, floats, above, show, known, package_dir, workspace, blob, value_of}
use permeant_os.Tests.Sessions.{loads, shipped, response}

abbrev activity : Activity
activity = record {
  graph = dict [];
  executed_tools = [];
  blocked_tools = [];
  written_artifacts = [];
}

abbrev continued : Continued
continued = record {
  prompt_byte_hash = known;
  prompt_token_hash = known;
  kv_hash = known;
  deterministic_next_response = response;
}

resume_imported_agent_writes_example :
    (¬ (Below (workspace_or package_dir (some workspace)) blob)
      → read blob
          (resume_imported_agent digest floats show loads above package_dir
            (some workspace)
            false
            shipped).1
        ≡ read blob shipped)
    × (false ≡ false
        → resumed_graph (workspace_or package_dir (some workspace)) ≢ blob
        → report_file (workspace_or package_dir (some workspace)) ≢ blob
        → read blob
            (resume_imported_agent digest floats show loads above package_dir
              (some workspace)
              false
              shipped).1
          ≡ read blob
              (import_session loads floats above digest show package_dir
                (some workspace)
                runtime_id
                shipped).1)
resume_imported_agent_writes_example =
    resume_imported_agent_writes digest floats show loads above package_dir blob (some workspace)
      false shipped

abbrev graph : Value
graph = dict (
    ("graph_id", str "graph:1")
    ∷ ("nodes", list [])
    ∷ ("lineage", list [])
    ∷ ("graph_hash", str "")
    ∷ [])

abbrev finished : Value
unfolding finish_graph
finished = value_of (finish_graph digest graph (str known))

finishes : finish_graph digest graph (str known) ≡ ok finished
unfolding finish_graph append_post_migration_node append_to seal canonical_graph_hash get_item
    set_item pop lookup insert
finishes = refl

finish_graph-sealed_example :
    ((do h ← get_item finished "graph_hash"; verify_graph digest finished h) ≡ ok tt)
    × (get_item finished "source_graph_id" ≡ ok (str known))
finish_graph-sealed_example = finish_graph-sealed digest graph finished (str known) finishes
