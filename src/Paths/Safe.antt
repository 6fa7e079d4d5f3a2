-- ===== src/Paths/Safe.antt =====
-- What `safe_relative_path` guarantees of a path that it returns.
use permeant_os.Prelude.{String, ◌≡◌, ◌↔◌, false, arith, contains, refl}
use permeant_os.Py.Value.{Value, str}
use permeant_os.Py.Result.{ok}
use permeant_os.Py.Path.{PurePath, path}
use permeant_os.Paths.{safe_relative_path, no_parts}

-- A path that stays below whatever it is joined to.
pub record IsConfined (p : PurePath) : Type 0 where
  pub relative : p.absolute ≡ false
  pub no_parent : contains p.parts ".." ≡ false
  pub nonempty : no_parts p.parts ≡ false

-- `safe_relative_path` returns a path exactly when the value is a text whose path is relative, has a
-- part, and has no part `..`; it then returns that path.
pub safe_relative_path_iff :
    (v : Value) (label : String) (p : PurePath)
    → (safe_relative_path v label ≡ ok p)
      ↔ ((s : String) × (v ≡ str s) × (p ≡ path s) × IsConfined p)
unfolding safe_relative_path
safe_relative_path_iff (str s) label p =
    (λ h. (s, refl, ground arith, ground arith), λ (s', e, q, c). ground arith)
safe_relative_path_iff _ label p = (λ h. cc, λ (s, e, q, c). cc)
