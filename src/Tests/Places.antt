-- ===== src/Tests/Places.antt =====
-- The theorems on paths and secrets, at concrete values.
use permeant_os.Prelude.{◌<>◌, ◌≡◌, ◌↔◌, refl, String, [], ◌∷◌, List, true, false, contains}
use permeant_os.Py.Value.{str}
use permeant_os.Py.Result.{ok}
use permeant_os.Py.Path.{path, as_posix, PurePath}
use permeant_os.Paths.{path_allowed_by_prefix, safe_relative_path}
use permeant_os.Paths.Safe.{IsConfined, safe_relative_path_iff}
use permeant_os.Paths.Allowed.{path_allowed_by_prefix_sound}
use permeant_os.Secrets.{find_forbidden_secret_material}
use permeant_os.Secrets.Sound.{HasSecret, find_forbidden_secret_material_iff}
use permeant_os.Tests.{graph}

abbrev report_path : PurePath
report_path = record { absolute = false; parts = "reports" ∷ "a.md" ∷ [] }

safe_relative_path_iff_example :
    (safe_relative_path (str "./reports//a.md") "path" ≡ ok report_path) ↔ (
      (s : String) × (str "./reports//a.md" ≡ str s)
      × (report_path ≡ path s)
      × IsConfined report_path)
safe_relative_path_iff_example = safe_relative_path_iff (str "./reports//a.md") "path" report_path

allowed : path_allowed_by_prefix (str "reports/a.md") ≡ ok true
unfolding path_allowed_by_prefix path contains as_posix ◌<>◌
allowed = refl

path_allowed_by_prefix_sound_example :
    (s : String) × (q : String) × (qs : List String) × (str "reports/a.md" ≡ str s)
    × (path s ≡ record { absolute = false; parts = "reports" ∷ q ∷ qs })
    × (contains ("reports" ∷ q ∷ qs) ".." ≡ false)
path_allowed_by_prefix_sound_example = path_allowed_by_prefix_sound (str "reports/a.md") allowed

find_forbidden_secret_material_iff_example :
    (find_forbidden_secret_material graph ≡ []) ↔ ¬ (HasSecret graph)
find_forbidden_secret_material_iff_example = find_forbidden_secret_material_iff graph
