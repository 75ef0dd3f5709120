-- ===== src/Read.antt =====
-- src/mp4_box_reader.c and the macros MP4_READ_8, MP4_READ_16, MP4_READ_32 and MP4_READ_SKIP of
-- src/mp4_priv.h. `read` on the file at an offset is the parameter `pread`: an offset and a size to
-- the bytes that were read, at most so many, or the `errno` of the call that failed. `lseek` forward
-- is taken to succeed.
pub mod Holds
pub mod Tables
pub mod Each
pub mod Entries
pub mod Headers
pub mod Handler
pub mod Children
pub mod Malformed
use libmp.Prelude.{
  ℕ, Res, ◌-◌, guard, ◌+◌, List, ◌>>=◌, leb, ok, ◌>>◌, ◌*◌, [], einval, suc, length, ◌^◌, ◌∷◌, ◌==◌,
  eio, zero,
}
use libmp.Bytes.{from_be}

-- Where the descriptor stands, and `boxReadBytes`.
pub record Cursor : Type 0 where
  pub offset : ℕ
  pub count : ℕ

unfoldable pub advance : Cursor → ℕ → Cursor
advance c n = record { offset = c.offset + n; count = c.count + n }

-- The three macros, with the byte order turned.
unfoldable pub read_be : ℕ → (ℕ → ℕ → Res (List ℕ)) → Cursor → Res (ℕ × Cursor)
read_be n pread c = do
  bytes ← pread c.offset n
  guard (length bytes == n) eio
  ok (from_be bytes, advance c n)

abbrev pub read_32 : (ℕ → ℕ → Res (List ℕ)) → Cursor → Res (ℕ × Cursor)
read_32 = read_be 4

-- Two words, the high one first
unfoldable pub read_64 : (ℕ → ℕ → Res (List ℕ)) → Cursor → Res (ℕ × Cursor)
read_64 pread c = do (hi, c) ← read_32 pread c; (lo, c) ← read_32 pread c; ok (hi * 2 ^ 32 + lo, c)

-- MP4_READ_SKIP to the end of a box that has `max_bytes` bytes
unfoldable pub skip_rest : ℕ → Cursor → Cursor
skip_rest max_bytes c = advance c (max_bytes - c.count)

-- CHECK_SIZE
abbrev pub check_size : ℕ → ℕ → Res (Unit {0})
check_size max_bytes expected = guard (leb expected max_bytes) einval

-- A loop that reads one entry a round.
unfoldable pub read_each {ℓ} :
    {A : Type ℓ} → (Cursor → Res (A × Cursor)) → ℕ → Cursor → Res (List A × Cursor)
read_each one zero c = ok ([], c)
read_each one (suc n) c = do (a, c) ← one c; (rest, c) ← read_each one n c; ok (a ∷ rest, c)
