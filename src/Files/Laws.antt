-- ===== src/Files/Laws.antt =====
-- Reading after writing.
use permeant_os.Prelude.{
  ◌++◌, false, ap, ℕ, String, ◌≡◌, ◌≢◌, ◌↔◌, refl, true, List, [], ◌∷◌, eq_iff, arith,
  if◌then◌else◌, some,
}
use permeant_os.Py.Path.{PurePath, child}
use permeant_os.Files.{same_path, same_parts, Files, read, write}

same_parts_iff : (ps qs : List String) → (same_parts ps qs ≡ true) ↔ (ps ≡ qs)
unfolding same_parts
same_parts_iff [] [] = (λ h. refl, λ e. refl)
same_parts_iff [] (q ∷ qs) = (λ h. cc, λ e. cc)
same_parts_iff (p ∷ ps) [] = (λ h. cc, λ e. cc)
same_parts_iff (p ∷ ps) (q ∷ qs) = (
  λ h. ground (arith, eq_iff p q, same_parts_iff ps qs),
  λ e. ground (arith, eq_iff p q, same_parts_iff ps qs),
)

pub same_path_iff : (p q : PurePath) → (same_path p q ≡ true) ↔ (p ≡ q)
unfolding same_path
same_path_iff p q = (
  λ h. ground (arith, same_parts_iff p.parts q.parts),
  λ e. ground (arith, same_parts_iff p.parts q.parts),
)

pub read-write :
    (p q : PurePath) (bytes : List ℕ) (fs : Files)
    → read q (write p bytes fs) ≡ (if same_path p q then some bytes else read q fs)
unfolding read write
read-write p q bytes fs = refl

pub read-write_self :
    (p : PurePath) (bytes : List ℕ) (fs : Files) → read p (write p bytes fs) ≡ some bytes
read-write_self p bytes fs = rw (read-write, (same_path_iff p p).1 refl)

pub read-write_ne :
    (p q : PurePath) (bytes : List ℕ) (fs : Files) → p ≢ q → read q (write p bytes fs) ≡ read q fs
read-write_ne p q bytes fs n = rw read-write (ground (arith, same_path_iff p q))

append-cancel : (xs ys zs : List String) → xs ++ ys ≡ xs ++ zs → ys ≡ zs
append-cancel [] ys zs h = h
append-cancel (x ∷ xs) ys zs h = append-cancel xs ys zs cc

-- Relative paths that reach one file from one directory have the same parts.
pub child-parts :
    (dir p q : PurePath)
    → p.absolute ≡ false
    → q.absolute ≡ false
    → child dir p ≡ child dir q
    → p.parts ≡ q.parts
child-parts dir p q a b e =
    append-cancel dir.parts p.parts q.parts (ap (λ (x : PurePath). x.parts) (rw (a, b) at e))
