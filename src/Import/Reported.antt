-- ===== src/Import/Reported.antt =====
-- The report of `import_session`: what it says of the package and of the restored artifacts.
use permeant_os.Prelude.{
  ◌≡◌, refl, String, ◌++◌, some, ◌⊎◌, inl, inr, List, [], ◌∷◌, All, Some, Bool-cases, true, subst,
}
use permeant_os.Py.Value.{Value, str}
use permeant_os.Py.Result.{ok, >>=-eq-ok, ok-injective}
use permeant_os.Py.Dict.{get_item, iter}
use permeant_os.Py.Equal.{py_eq, check_hashable}
use permeant_os.Py.Path.{PurePath}
use permeant_os.Artifacts.{Restored}
use permeant_os.Import.Latest.{Elsewhere, found, hashes_of-latest}
use permeant_os.Import.{put_hash, hashes_of, Checked, Continued, ImportReport, build_report}

abbrev pub Hashes : Type 0
Hashes = List (Value × Value)

-- A key that stands for a path.
abbrev pub SameKey : Value → Value → Type 0
SameKey q p = (q ≡ p) ⊎ (py_eq q p ≡ true)

-- The path and the digest of an artifact's entry.
abbrev pub Entered : Value → Value → Value → Type 0
Entered a p sha = (get_item a "path" ≡ ok p) × (get_item a "sha256" ≡ ok sha)

-- Each reported digest is that of an artifact with the path.
abbrev pub FromArtifact : List Value → Value × Value → Type 0
FromArtifact artifacts (q, sha) = Some (λ a. (p : Value) × Entered a p sha × SameKey q p) artifacts

-- The path of an artifact is a key.
abbrev pub HasKey : Hashes → Value → Type 0
HasKey hashes p = Some (λ e. SameKey e.0 p) hashes

put_hash-HasKey : (p sha : Value) (hashes : Hashes) → HasKey (put_hash p sha hashes) p
unfolding put_hash
put_hash-HasKey p sha [] = inl (inl refl)
put_hash-HasKey p sha ((q, old) ∷ hashes) = elim (Bool-cases (py_eq q p)) [
  | inl same ↦ rw same (inl (inr same))
  | inr other ↦ rw other (inr (put_hash-HasKey p sha hashes))
]

put_hash-keeps :
    (p sha r : Value) (hashes : Hashes) → HasKey hashes r → HasKey (put_hash p sha hashes) r
unfolding put_hash
put_hash-keeps p sha r [] h = absurd h
put_hash-keeps p sha r ((q, old) ∷ hashes) h = elim (Bool-cases (py_eq q p)) [
  | inl same ↦ rw same h
  | inr other ↦ rw other (elim h [ inl k ↦ inl k | inr k ↦ inr (put_hash-keeps p sha r hashes k) ])
]

put_hash-All :
    (P : Value × Value → Type 0) (p sha : Value) (hashes : Hashes)
    → ((q : Value) → SameKey q p → P (q, sha))
    → All P hashes
    → All P (put_hash p sha hashes)
unfolding put_hash
put_hash-All P p sha [] here h = (here p (inl refl), tt)
put_hash-All P p sha ((q, old) ∷ hashes) here h = elim (Bool-cases (py_eq q p)) [
  | inl same ↦ rw same (here q (inr same), h.1)
  | inr other ↦ rw other (h.0, put_hash-All P p sha hashes here h.1)
]

hashes_of-keeps :
    (r : Value) (artifacts : List Value) (before hashes : Hashes)
    → hashes_of artifacts before ≡ ok hashes
    → HasKey before r
    → HasKey hashes r
unfolding hashes_of
hashes_of-keeps r [] before hashes h k = subst (λ x. HasKey x r) (ok-injective before hashes h) k
hashes_of-keeps r (a ∷ artifacts) before hashes h k =
    let (p, _, h1) = >>=-eq-ok (get_item a "path") _ h in
    let (sha, _, h2) = >>=-eq-ok (get_item a "sha256") _ h1 in
    let (_, _, h3) = >>=-eq-ok (check_hashable p) _ h2 in
    hashes_of-keeps r artifacts (put_hash p sha before) hashes h3 (put_hash-keeps p sha r before k)

hashes_of-HasKey :
    (artifacts : List Value) (before hashes : Hashes)
    → hashes_of artifacts before ≡ ok hashes
    → All (λ a. (p : Value) × (get_item a "path" ≡ ok p) × HasKey hashes p) artifacts
unfolding hashes_of
hashes_of-HasKey [] before hashes h = tt
hashes_of-HasKey (a ∷ artifacts) before hashes h =
    let (p, e, h1) = >>=-eq-ok (get_item a "path") _ h in
    let (sha, _, h2) = >>=-eq-ok (get_item a "sha256") _ h1 in
    let (_, _, h3) = >>=-eq-ok (check_hashable p) _ h2 in
    (
      (
        p,
        e,
        hashes_of-keeps p artifacts (put_hash p sha before) hashes h3
            (put_hash-HasKey p sha before),
      ),
      hashes_of-HasKey artifacts (put_hash p sha before) hashes h3,
    )

hashes_of-All :
    (P : Value × Value → Type 0) (artifacts : List Value) (before hashes : Hashes)
    → hashes_of artifacts before ≡ ok hashes
    → All P before
    → All (λ a. (p sha q : Value) → Entered a p sha → SameKey q p → P (q, sha)) artifacts
    → All P hashes
unfolding hashes_of
hashes_of-All P [] before hashes h b all = subst (All P) (ok-injective before hashes h) b
hashes_of-All P (a ∷ artifacts) before hashes h b all =
    let (p, e1, h1) = >>=-eq-ok (get_item a "path") _ h in
    let (sha, e2, h2) = >>=-eq-ok (get_item a "sha256") _ h1 in
    let (_, _, h3) = >>=-eq-ok (check_hashable p) _ h2 in
    hashes_of-All P artifacts (put_hash p sha before) hashes h3
      (put_hash-All P p sha before (λ q same. all.0 p sha q (e1, e2) same) b) all.1

-- Every artifact of a list is one of a list.
All-self :
    (artifacts : List Value) (P : Value → Type 0)
    → ((a : Value) → Some (λ b. a ≡ b) artifacts → P a)
    → All P artifacts
All-self [] P f = tt
All-self (a ∷ artifacts) P f = (f a (inl refl), All-self artifacts P (λ b s. f b (inr s)))

Some-imp :
    (P Q : Value → Type 0) (xs : List Value) → ((x : Value) → P x → Q x) → Some P xs → Some Q xs
Some-imp P Q [] f h = absurd h
Some-imp P Q (x ∷ xs) f h = elim h [ inl p ↦ inl (f x p) | inr k ↦ inr (Some-imp P Q xs f k) ]

hashes_of-FromArtifact :
    (artifacts : List Value) (hashes : Hashes)
    → hashes_of artifacts [] ≡ ok hashes
    → All (FromArtifact artifacts) hashes
hashes_of-FromArtifact artifacts hashes h =
    hashes_of-All (FromArtifact artifacts) artifacts [] hashes h tt (
      All-self artifacts _ (λ a here p sha q e same.
        Some-imp (λ b. a ≡ b) (λ b. (r : Value) × Entered b r sha × SameKey q r) artifacts
          (λ b k. subst (λ x. (r : Value) × Entered x r sha × SameKey q r) k (p, e, same)) here))

-- What a report says: the graph's hash, the store, the workspace and the restored artifacts, the
-- results of the checks, and for the path of each artifact of the manifest a digest, each of them
-- that of an artifact with that path, and of the last one where several have it as a text.
pub record Reported (c : Checked) (workspace : PurePath) (restored : List Restored) (k : Continued)
    (r : ImportReport) : Type 0 where
  pub checked : r.checked ≡ c
  pub continued : r.continued ≡ k
  pub workspace_named : r.restored_workspace ≡ workspace
  pub restoration : r.restore_report ≡ restored
  pub graph_hash : get_item c.graph "graph_hash" ≡ ok r.graph_hash
  pub store : get_item c.manifest "artifact_store" ≡ ok r.artifact_store
  pub listed : Value
  pub listed_field : get_item c.manifest "artifacts" ≡ ok listed
  pub artifacts : List Value
  pub artifacts_listed : iter listed ≡ ok artifacts
  pub hashes_given : All (FromArtifact artifacts) r.artifact_hashes
  pub hashes_complete :
      All (λ a. (p : Value) × (get_item a "path" ≡ ok p) × HasKey r.artifact_hashes p) artifacts
  pub hashes_latest :
      (s : String) (earlier : List Value) (a sha : Value) (later : List Value)
      → artifacts ≡ earlier ++ a ∷ later
      → get_item a "path" ≡ ok (str s)
      → get_item a "sha256" ≡ ok sha
      → Elsewhere s later
      → found s r.artifact_hashes ≡ some sha

pub build_report-Reported :
    (c : Checked) (workspace : PurePath) (l : List Restored) (k : Continued) (r : ImportReport)
    → build_report c workspace l k ≡ ok r
    → Reported c workspace l k r
unfolding build_report
build_report-Reported c workspace l k r h =
    let (g, e1, h1) = >>=-eq-ok (get_item c.graph "graph_hash") _ h in
    let (a, e2, h2) = >>=-eq-ok (get_item c.manifest "artifacts") _ h1 in
    let (listed, e3, h3) = >>=-eq-ok (iter a) _ h2 in
    let (hashes, e4, h4) = >>=-eq-ok (hashes_of listed []) _ h3 in
    let (store, e5, h5) = >>=-eq-ok (get_item c.manifest "artifact_store") _ h4 in
    subst (Reported c workspace l k) (ok-injective _ r h5) (record {
      checked = refl;
      continued = refl;
      workspace_named = refl;
      restoration = refl;
      graph_hash = e1;
      store = e5;
      listed = a;
      listed_field = e2;
      artifacts = listed;
      artifacts_listed = e3;
      hashes_given = hashes_of-FromArtifact listed hashes e4;
      hashes_complete = hashes_of-HasKey listed [] hashes e4;
      hashes_latest = λ s earlier a sha later split.
          hashes_of-latest s earlier a sha later [] hashes
            (subst (λ x. hashes_of x [] ≡ ok hashes) split e4);
    })
