-- ===== src/Files/Streaming.antt =====
-- The streaming loop sees the whole file, whatever the size of the chunks, and its fuel is enough.
use permeant_os.Prelude.{
  ℕ, zero, suc, ◌+◌, ◌<◌, ◌≡◌, refl, ap, ◌≢◌, inl, inr, Option-cases, sym, ◌∙◌, List, [], ◌∷◌, ◌++◌,
  arith, some, none, Option, length, String,
}
use mathlib.Core.Path.{ap₂}
use mathlib.Core.List.{append-nil, append_assoc}
use permeant_os.Py.Result.{ok, Result-cases, ok-injective}
use permeant_os.Py.Path.{PurePath}
use permeant_os.Hashing.{sha256_bytes}
use permeant_os.Files.Laws.{read-write_ne, read-write_self}
use permeant_os.Files.{
  write, append_bytes, append_chunk, copy_stream, copy_file_streaming_with_hash, take, drop, stream,
  stream_file, stream_chunk_size, Files, read, open_read, file_sha256_and_size,
}

take-append-drop : (n : ℕ) (bytes : List ℕ) → take n bytes ++ drop n bytes ≡ bytes
unfolding take drop
take-append-drop zero bytes = refl
take-append-drop (suc n) [] = refl
take-append-drop (suc n) (b ∷ bytes) = rw (take-append-drop n bytes)

length-take-drop :
    (n : ℕ) (bytes : List ℕ) → length (take n bytes) + length (drop n bytes) ≡ length bytes
unfolding take drop
length-take-drop zero bytes = omega arith
length-take-drop (suc n) [] = omega arith
length-take-drop (suc n) (b ∷ bytes) = omega (arith, length-take-drop n bytes)

-- With a chunk of at least one byte, and more fuel than the handle has bytes, the loop ends and has
-- seen what it had before and then all that was left, and has counted it.
pub stream_lem :
    (fuel n : ℕ) (handle seen : List ℕ) (size : ℕ)
    → length handle < fuel
    → stream fuel (suc n) handle seen size ≡ some (seen ++ handle, size + length handle)
unfolding stream
stream_lem zero n handle seen size h = elim h [ ]
stream_lem (suc fuel) n [] seen size h =
    ap₂ (λ s k. some (s, k)) (sym (append-nil seen)) (omega arith)
stream_lem (suc fuel) n (b ∷ bytes) seen size h =
    stream_lem fuel n (drop n bytes) (seen ++ (b ∷ take n bytes))
      (size + suc (length (take n bytes))) (omega (arith, length-take-drop n bytes))
    ∙ ap₂ (λ s k. some (s, k))
        (append_assoc seen _ _ ∙ ap (λ t. seen ++ (b ∷ t)) (take-append-drop n bytes))
        (omega (arith, length-take-drop n bytes))

-- The loop over a file ends, and has seen exactly the bytes of the file.
pub stream_file_lem : (bytes : List ℕ) → stream_file bytes ≡ some (bytes, length bytes)
unfolding stream_file stream_chunk_size
stream_file_lem bytes =
    stream_lem (suc (length bytes)) 1048575 bytes [] 0 (omega arith)
    ∙ ap (λ k. some (bytes, k)) (omega arith)

pub open_read-of_read :
    (p : PurePath) (fs : Files) (bytes : List ℕ)
    → read p fs ≡ some bytes
    → open_read p fs ≡ ok bytes
unfolding open_read
open_read-of_read p fs bytes h = rw (h, open_read)

append_chunk-some :
    (p : PurePath) (chunk old : List ℕ) (fs : Files)
    → read p fs ≡ some old
    → append_chunk p chunk fs ≡ write p (old ++ chunk) fs
unfolding append_chunk
append_chunk-some p chunk old fs h = ap (append_bytes p chunk fs) h

append_to_keeps :
    (p q : PurePath) (chunk : List ℕ) (fs : Files) (old : Option (List ℕ))
    → p ≢ q
    → read q (append_bytes p chunk fs old) ≡ read q fs
unfolding append_bytes
append_to_keeps p q chunk fs none n = read-write_ne p q chunk fs n
append_to_keeps p q chunk fs (some old) n = read-write_ne p q (old ++ chunk) fs n

append_chunk_keeps :
    (p q : PurePath) (chunk : List ℕ) (fs : Files)
    → p ≢ q
    → read q (append_chunk p chunk fs) ≡ read q fs
unfolding append_chunk
append_chunk_keeps p q chunk fs n = append_to_keeps p q chunk fs (read p fs) n

copy_stream_keeps :
    (fuel n : ℕ) (handle : List ℕ) (target q : PurePath) (seen : List ℕ) (size : ℕ) (fs : Files)
    → target ≢ q
    → read q (copy_stream fuel n handle target seen size fs).1 ≡ read q fs
unfolding copy_stream
copy_stream_keeps zero n handle target q seen size fs d = refl
copy_stream_keeps (suc fuel) n [] target q seen size fs d = refl
copy_stream_keeps (suc fuel) n (b ∷ bytes) target q seen size fs d =
    copy_stream_keeps fuel n (drop n (b ∷ bytes)) target q _ _ _ d
    ∙ append_chunk_keeps target q (take n (b ∷ bytes)) fs d

-- The loop that copies sees what the other loop sees, and appends exactly that to the target.
copy_stream_lem :
    (fuel n : ℕ) (handle : List ℕ) (target : PurePath) (seen : List ℕ) (size : ℕ) (fs : Files)
    (old : List ℕ)
    → length handle < fuel
    → read target fs ≡ some old
    → ((copy_stream fuel (suc n) handle target seen size fs).0
        ≡ some (seen ++ handle, size + length handle))
      × (read target (copy_stream fuel (suc n) handle target seen size fs).1 ≡ some (old ++ handle))
unfolding copy_stream
copy_stream_lem zero n handle target seen size fs old h r = elim h [ ]
copy_stream_lem (suc fuel) n [] target seen size fs old h r = (
  ap₂ (λ s k. some (s, k)) (sym (append-nil seen)) (omega arith),
  r ∙ ap some (sym (append-nil old)),
)
copy_stream_lem (suc fuel) n (b ∷ bytes) target seen size fs old h r =
    let chunk : List ℕ = b ∷ take n bytes in
    let appended : read target (append_chunk target chunk fs) ≡ some (old ++ chunk) =
      ap (read target) (append_chunk-some target chunk old fs r)
      ∙ read-write_self target (old ++ chunk) fs in
    let (e, w) =
      copy_stream_lem fuel n (drop n bytes) target (seen ++ chunk) (size + length chunk)
        (append_chunk target chunk fs) (old ++ chunk) (omega (arith, length-take-drop n bytes))
        appended in
    (
      e
          ∙ ap₂ (λ s k. some (s, k))
              (append_assoc seen _ _ ∙ ap (λ t. seen ++ (b ∷ t)) (take-append-drop n bytes))
              (omega (arith, length-take-drop n bytes)),
      w ∙ ap some (append_assoc old _ _ ∙ ap (λ t. old ++ (b ∷ t)) (take-append-drop n bytes)),
    )

module _ (hexdigest : List ℕ → String) where
  -- For a file that is there, the streamed digest and size are those of its whole content.
  pub file_sha256_and_size_lem :
      (p : PurePath) (fs : Files) (bytes : List ℕ)
      → read p fs ≡ some bytes
      → file_sha256_and_size hexdigest p fs ≡ ok (sha256_bytes hexdigest bytes, length bytes)
  unfolding file_sha256_and_size
  file_sha256_and_size_lem p fs bytes h =
      rw (open_read-of_read p fs bytes h) (rw (stream_file_lem bytes))

  -- Copying a file onto another path returns the digest and the size of the source's content, leaves
  -- that content at the target, and changes no third file.
  pub copy_file_streaming_with_hash_lem :
      (source target : PurePath) (fs : Files) (bytes : List ℕ)
      → read source fs ≡ some bytes
      → target ≢ source
      → ((copy_file_streaming_with_hash hexdigest source target fs).0
          ≡ ok (sha256_bytes hexdigest bytes, length bytes))
        × (read target (copy_file_streaming_with_hash hexdigest source target fs).1 ≡ some bytes)
        × ((q : PurePath)
            → target ≢ q
            → read q (copy_file_streaming_with_hash hexdigest source target fs).1 ≡ read q fs)
  unfolding copy_file_streaming_with_hash stream_chunk_size
  copy_file_streaming_with_hash_lem source target fs bytes h n =
      let opened : Files = write target [] fs in
      let kept : open_read source opened ≡ ok bytes =
        open_read-of_read source _ bytes (read-write_ne target source [] fs n ∙ h) in
      let (e, w) =
        copy_stream_lem (suc (length bytes)) 1048575 bytes target [] 0 opened [] (omega arith)
          (read-write_self target [] fs) in
      rw (open_read-of_read source fs bytes h, kept)
        (
          rw e (ap (λ k. ok (sha256_bytes hexdigest bytes, k)) (omega arith)),
          w,
          λ q m.
              copy_stream_keeps (suc (length bytes)) 1048576 bytes target q [] 0 opened m
              ∙ read-write_ne target q [] fs m,
        )

  -- Whatever happens, no file but the target changes.
  pub copy_file_keeps :
      (source target q : PurePath) (fs : Files)
      → target ≢ q
      → read q (copy_file_streaming_with_hash hexdigest source target fs).1 ≡ read q fs
  unfolding copy_file_streaming_with_hash stream_chunk_size
  copy_file_keeps source target q fs n = elim (Result-cases (open_read source fs)) [
    | inr (e, h) ↦ rw h
    | inl (b, h) ↦ rw h (elim (Result-cases (open_read source (write target [] fs))) [
      | inr (e, k) ↦ rw k (read-write_ne target q [] fs n)
      | inl (c, k) ↦ rw k (
          copy_stream_keeps (suc (length c)) 1048576 c target q [] 0 (write target [] fs) n
          ∙ read-write_ne target q [] fs n)
    ])
  ]

  -- What a digest and a size that were returned are.
  pub file_sha256_and_size_inv :
      (p : PurePath) (fs : Files) (r : String × ℕ)
      → file_sha256_and_size hexdigest p fs ≡ ok r
      → (bytes : List ℕ) × (read p fs ≡ some bytes)
        × (r ≡ (sha256_bytes hexdigest bytes, length bytes))
  unfolding file_sha256_and_size open_read
  file_sha256_and_size_inv p fs r h = elim (Option-cases (read p fs)) [
    | inl absent ↦ cc (rw (absent, open_read, file_sha256_and_size) at h)
    | inr (bytes, found) ↦
        (bytes, found, ok-injective _ _ (sym h ∙ file_sha256_and_size_lem p fs bytes found))
  ]

  -- A file that is copied onto itself is emptied.
  pub copy_file_onto_itself :
      (source : PurePath) (fs : Files) (bytes : List ℕ)
      → read source fs ≡ some bytes
      → ((copy_file_streaming_with_hash hexdigest source source fs).0
          ≡ ok (sha256_bytes hexdigest [], 0))
        × (read source (copy_file_streaming_with_hash hexdigest source source fs).1 ≡ some [])
  unfolding copy_file_streaming_with_hash copy_stream
  copy_file_onto_itself source fs bytes h =
      let emptied : open_read source (write source [] fs) ≡ ok [] =
        open_read-of_read source _ [] (read-write_self source [] fs) in
      rw (open_read-of_read source fs bytes h, emptied) (refl, read-write_self source [] fs)
