-- ===== src/Tests.antt =====
-- Concrete values for the tests: a graph of examples/agent-memory-graph/local_agent.py in small, its
-- manifest, and a package of one artifact.
pub mod Imports
pub mod Hashes
pub mod Calls
pub mod Caches
pub mod Places
pub mod Restoring
pub mod Exporting
pub mod Memories
pub mod Sessions
pub mod Resuming
pub mod Returning
pub mod Spans
pub mod Packages
pub mod Complexes
pub mod Archives
use permeant_os.Prelude.{Bool, false, ℕ, String, true, List, [], ◌∷◌}
use permeant_os.Py.Value.{Value, null, str, int, bool, dict, list, Fields, fields}
use permeant_os.Py.Result.{Result, ok, raise}
use permeant_os.Py.Dict.{insert}
use permeant_os.Py.Path.{PurePath}
use permeant_os.Constants.{runtime_id}
use permeant_os.Embeddings.{Floats}
use permeant_os.Files.{Files}

-- A digest that tells an empty file from the others.
abbrev pub digest : List ℕ → String
digest [] = "e3b0"
digest (b ∷ bytes) = "9f86"

abbrev pub known : String
known = "sha256:9f86"

abbrev pub call_node : Value
call_node = dict (
    ("id", str "tool:call:1")
    ∷ ("type", str "tool_call")
    ∷ ("name", str "fs.write_file")
    ∷ ("side_effect", str "external_write")
    ∷ ("status", str "needs_user")
    ∷ ("resume_policy", str "ask_user")
    ∷ [])

abbrev pub graph_fields : Fields
graph_fields = fields (
    ("graph_id", str "graph:1")
    ∷ (
      "nodes",
      list (
          call_node
          ∷ dict (
              ("id", str "artifact:1")
              ∷ ("type", str "artifact")
              ∷ ("path", str "reports/a.md")
              ∷ [])
          ∷ dict (
              ("id", str "credential:1")
              ∷ ("type", str "credential_ref")
              ∷ ("redaction_state", str "external_only")
              ∷ ("required", bool true)
              ∷ ("binding", str "an account")
              ∷ [])
          ∷ []),
    )
    ∷ ("graph_hash", str known)
    ∷ [])

abbrev pub graph : Value
graph = Value.obj graph_fields

abbrev pub artifact : Value
artifact = dict (
    ("path", str "reports/a.md")
    ∷ ("sha256", str known)
    ∷ ("size_bytes", int 2)
    ∷ ("restore_policy", str "required")
    ∷ ("target_path", str "reports/a.md")
    ∷ ("blob_path", str "artifacts/a.md")
    ∷ [])

abbrev pub floats : Floats
floats = record {
  add = λ x y. "1.0";
  multiply = λ x y. x;
  divide = λ x y. x;
  square_root = λ x. x;
  round8 = λ x. x;
  of_int = λ n. "1.0";
}

abbrev pub above : String → String → Bool
above x y = false

abbrev pub show : Value → String
show v = "None"

abbrev pub value_of : Result Value → Value
value_of (ok v) = v
value_of (raise e) = null

abbrev pub package_dir : PurePath
package_dir = record { absolute = true; parts = "package" ∷ [] }

abbrev pub workspace : PurePath
workspace = record { absolute = true; parts = "work" ∷ [] }

abbrev pub blob : PurePath
blob = record { absolute = true; parts = "package" ∷ "artifacts" ∷ "a.md" ∷ [] }

abbrev pub files : Files
files = (blob, 35 ∷ 10 ∷ []) ∷ []
