-- ===== src/Paths.antt =====
-- examples/agent-memory-graph/local_agent.py: paths of blobs, of restored artifacts, and the prefixes
-- that the security policy allows.
pub mod Safe
pub mod Allowed
use permeant_os.Prelude.{String, ◌<>◌, Bool, true, false, not, ◌||◌, List, [], ◌∷◌, contains}
use permeant_os.Py.Value.{Value, str}
use permeant_os.Py.Result.{Result, ok, raise, invalid, type_error, ◌>>=◌, ◌>>◌, reject_if}
use permeant_os.Py.Text.{remove_prefix, take_chars, starts_with}
use permeant_os.Py.Path.{PurePath, path, as_posix, name}
use permeant_os.Constants.{allowed_artifact_path_prefixes}

unfoldable pub content_addressed_blob_path : String → String → String
unfolding path remove_prefix take_chars
content_addressed_blob_path content_hash logical_path =
    let digest = remove_prefix content_hash "sha256:" in
    "artifacts/sha256/" <> take_chars 2 digest <> "/" <> digest <> "/" <> name (path logical_path)

-- `Path(value)`
unfoldable pub as_path : Value → Result PurePath
as_path (str s) = ok (path s)
as_path _ = raise type_error

abbrev pub no_parts : List String → Bool
no_parts [] = true
no_parts (p ∷ ps) = false

unfoldable pub safe_relative_path : Value → String → Result PurePath
unfolding as_path
safe_relative_path value label = do
  relative ← as_path value
  reject_if (relative.absolute || contains relative.parts "..")
      (invalid ("unsafe " <> label <> ": {}") (value ∷ []))
  reject_if (no_parts relative.parts) (invalid ("empty " <> label) [])
  ok relative

unfoldable pub safe_workspace_relative_path : Value → Result PurePath
unfolding safe_relative_path
safe_workspace_relative_path value = safe_relative_path value "artifact restore path"

unfoldable pub safe_package_relative_path : Value → Result PurePath
unfolding safe_relative_path
safe_package_relative_path value = safe_relative_path value "package path"

any_prefix : List String → String → Bool
any_prefix [] s = false
any_prefix (p ∷ ps) s = starts_with s p || any_prefix ps s

unfoldable pub path_allowed_by_prefix : Value → Result Bool
unfolding any_prefix safe_workspace_relative_path
path_allowed_by_prefix value = do
  normalized ← safe_workspace_relative_path value
  ok (any_prefix allowed_artifact_path_prefixes (as_posix normalized))
