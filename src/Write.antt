-- ===== src/Write.antt =====
-- src/mp4_box_writer.c and the macros MP4_WRITE_32, MP4_WRITE_16, MP4_WRITE_ZEROES and
-- MP4_WRITE_CHECK_SIZE of src/mp4_priv.h. What a box has put into `tables.buf` since it began is the
-- list `out`, so `bytesWritten` is its length and `tables.offset` stands at its end. `max_bytes` is
-- what is left of the buffer, which makes the second test of MP4_WRITE_ZEROES the first one again.
pub mod Tables
pub mod Exact
pub mod Headers
pub mod Run
pub mod Bounds
pub mod Stbl
pub mod Metadata
use libmp.Prelude.{
  ℕ, List, if◌then◌else◌, Res, ◌==◌, ◌>>◌, ok, replicate, ◌∷◌, length, guard, ◌>>=◌, ◌++◌, leb,
  drop, ◌+◌, [], enospc,
}
use libmp.Bytes.{be_16, be_32}

unfoldable pub write_bytes : ℕ → List ℕ → List ℕ → Res (List ℕ)
write_bytes max_bytes bytes out = do
  guard (leb (length out + length bytes) max_bytes) enospc
  ok (out ++ bytes)

abbrev pub write_32 : ℕ → ℕ → List ℕ → Res (List ℕ)
write_32 max_bytes v = write_bytes max_bytes (be_32 v)

-- MP4_WRITE_32 on one word after the other
unfoldable pub write_words : ℕ → List ℕ → List ℕ → Res (List ℕ)
write_words max_bytes [] out = ok out
write_words max_bytes (w ∷ ws) out = write_32 max_bytes w out >>= write_words max_bytes ws

-- A loop that writes the words of one entry a round.
unfoldable pub write_each {ℓ} : {A : Type ℓ} → ℕ → (A → List ℕ) → List A → List ℕ → Res (List ℕ)
write_each max_bytes enc [] out = ok out
write_each max_bytes enc (e ∷ es) out =
    write_words max_bytes (enc e) out >>= write_each max_bytes enc es

-- MP4_WRITE_CHECK_SIZE: the size in the first word is put right if it is another.
unfoldable pub fix_size : ℕ → List ℕ → List ℕ
fix_size size out = if size == length out then out else be_32 (length out) ++ drop 4 out

-- A run of writes, each of the bytes of one value
unfoldable pub write_run : ℕ → List (List ℕ) → List ℕ → Res (List ℕ)
write_run max_bytes [] out = ok out
write_run max_bytes (bytes ∷ run) out = write_bytes max_bytes bytes out >>= write_run max_bytes run

abbrev pub zeroes : ℕ → List ℕ
zeroes n = replicate n 0

-- A box that is one such run, with its size patched if the run has another length
unfoldable pub write_box : ℕ → ℕ → ℕ → List (List ℕ) → Res (List ℕ)
write_box max_bytes size kind run = do
  out ← write_run max_bytes (be_32 size ∷ be_32 kind ∷ run) []
  ok (fix_size size out)
