-- ===== src/Files.antt =====
-- The files that the program reads and writes, by their paths, and the two functions of
-- examples/agent-memory-graph/local_agent.py that stream a file. Directories and links are not
-- modelled: parents are made as needed, and two paths are one file if they are equal.
pub mod Laws
pub mod Streaming
use permeant_os.Prelude.{
  ◌<>◌, ℕ, zero, suc, ◌+◌, String, Bool, true, false, not, ◌&&◌, ◌||◌, List, [], ◌∷◌, ◌++◌, ◌==◌,
  if◌then◌else◌, Option, none, some, length, ◌*◌,
}
use permeant_os.Py.Result.{Exc, Result, ok, raise, file_not_found, ◌>>=◌}
use permeant_os.Py.Path.{PurePath, as_posix}
use permeant_os.Py.Value.{Value}
use permeant_os.Py.Text.{encode}
use permeant_os.Py.Indent.{dumps_indented}
use permeant_os.Hashing.{sha256_bytes}

same_parts : List String → List String → Bool
same_parts [] [] = true
same_parts (p ∷ ps) (q ∷ qs) = p == q && same_parts ps qs
same_parts _ _ = false

same_flag : Bool → Bool → Bool
same_flag true b = b
same_flag false b = not b

unfoldable pub same_path : PurePath → PurePath → Bool
unfolding same_parts same_flag
same_path p q = same_flag p.absolute q.absolute && same_parts p.parts q.parts

abbrev pub Files : Type 0
Files = List (PurePath × List ℕ)

-- the bytes of a file, if it is there
unfoldable pub read : PurePath → Files → Option (List ℕ)
read p [] = none
read p ((q, bytes) ∷ fs) = if same_path q p then some bytes else read p fs

-- `open(p, "wb")` and a write
unfoldable pub write : PurePath → List ℕ → Files → Files
write p bytes fs = (p, bytes) ∷ fs

-- `write_json`
unfoldable pub write_json : PurePath → Value → Files → Files
write_json p value fs = write p (encode (dumps_indented 0 value <> "\n")) fs

-- `open(p, "rb")`
unfoldable pub open_read : PurePath → Files → Result (List ℕ)
unfolding read
open_read p fs = elim (read p fs) [ none ↦ raise (file_not_found (as_posix p)) | some b ↦ ok b ]

unfoldable pub take : ℕ → List ℕ → List ℕ
take zero bytes = []
take (suc n) [] = []
take (suc n) (b ∷ bytes) = b ∷ take n bytes

unfoldable pub drop : ℕ → List ℕ → List ℕ
drop zero bytes = bytes
drop (suc n) [] = []
drop (suc n) (b ∷ bytes) = drop n bytes

-- The loop `while chunk := handle.read(size)`: the bytes that the hasher has seen, and their number.
-- `none` means that the fuel ran out.
unfoldable pub stream : ℕ → ℕ → List ℕ → List ℕ → ℕ → Option (List ℕ × ℕ)
unfolding take drop
stream zero chunk handle seen size = none
stream (suc fuel) chunk [] seen size = some (seen, size)
stream (suc fuel) chunk (b ∷ bytes) seen size =
    stream fuel chunk (drop chunk (b ∷ bytes)) (seen ++ take chunk (b ∷ bytes))
      (size + length (take chunk (b ∷ bytes)))

-- 1024 * 1024
unfoldable pub stream_chunk_size : ℕ
stream_chunk_size = 1048576

-- one round more than the file has bytes
unfoldable pub stream_file : List ℕ → Option (List ℕ × ℕ)
stream_file bytes = stream (suc (length bytes)) stream_chunk_size bytes [] 0

append_bytes : PurePath → List ℕ → Files → Option (List ℕ) → Files
unfolding write
append_bytes p chunk fs none = write p chunk fs
append_bytes p chunk fs (some old) = write p (old ++ chunk) fs

-- `handle.write(chunk)`, at the end of a file that is open
unfoldable pub append_chunk : PurePath → List ℕ → Files → Files
unfolding append_bytes
append_chunk p chunk fs = append_bytes p chunk fs (read p fs)

-- The same loop with its write of each chunk to the target. The source is not the target, or is empty.
unfoldable pub copy_stream :
    ℕ → ℕ → List ℕ → PurePath → List ℕ → ℕ → Files → Option (List ℕ × ℕ) × Files
unfolding take drop append_chunk
copy_stream zero chunk handle target seen size fs = (none, fs)
copy_stream (suc fuel) chunk [] target seen size fs = (some (seen, size), fs)
copy_stream (suc fuel) chunk (b ∷ bytes) target seen size fs =
    copy_stream fuel chunk (drop chunk (b ∷ bytes)) target (seen ++ take chunk (b ∷ bytes))
      (size + length (take chunk (b ∷ bytes))) (append_chunk target (take chunk (b ∷ bytes)) fs)

module _ (hexdigest : List ℕ → String) where
  unfoldable pub digest_and_size : Option (List ℕ × ℕ) → String × ℕ
  digest_and_size none = ("", 0)
  digest_and_size (some (seen, size)) = (sha256_bytes hexdigest seen, size)

  unfoldable pub file_sha256_and_size : PurePath → Files → Result (String × ℕ)
  unfolding digest_and_size
  file_sha256_and_size p fs = do bytes ← open_read p fs; ok (digest_and_size (stream_file bytes))

  copy_read : Result (List ℕ) → PurePath → Files → Result (String × ℕ) × Files
  unfolding digest_and_size copy_stream
  copy_read (raise e) target fs = (raise e, fs)
  copy_read (ok bytes) target fs =
      let (r, fs') = copy_stream (suc (length bytes)) stream_chunk_size bytes target [] 0 fs in
      (ok (digest_and_size r), fs')

  copy_opened : Result (List ℕ) → PurePath → PurePath → Files → Result (String × ℕ) × Files
  unfolding copy_read write
  copy_opened (raise e) source target fs = (raise e, fs)
  copy_opened (ok _) source target fs =
      copy_read (open_read source (write target [] fs)) target (write target [] fs)

  -- The target is opened, and so emptied, before the source is read.
  unfoldable pub copy_file_streaming_with_hash :
      PurePath → PurePath → Files → Result (String × ℕ) × Files
  unfolding copy_opened
  copy_file_streaming_with_hash source target fs =
      copy_opened (open_read source fs) source target fs
