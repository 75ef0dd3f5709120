-- ===== src/Carry/ReadBack.antt =====
-- src/mp4_box_writer.c and src/mp4_box_reader.c together: a box that the writer has left in a file,
-- behind some bytes and before others, and that the reader reads.
use libmp.Prelude.{Res, List, ℕ, ◌≡◌, ok, ◌<◌, ◌++◌, ◌≤◌, length, ◌+◌, ◌^◌, All, ◌*◌, true}
use libmp.Mux.{Mux, MuxTrack}
use libmp.Read.{Cursor, advance}
use libmp.Carry.Tables.{IsCarried, inside}
use libmp.Read.Tables.{RawTrack, max_entry_count, is_none, stsz_read}
use libmp.Read.Headers.{RawFile, tkhd_read, mvhd_read}
use libmp.Carry.TrackHeader.{HeaderFits, with_header, tkhd_write-IsCarried}
use libmp.Read.Holds.{file_pread, file_pread-Holds}
use libmp.Carry.Headers.{TimesFit, movie_times, with_movie, mvhd_write-IsCarried}
use libmp.Write.Headers.{tkhd_write, mvhd_write}
use libmp.Read.Entries.{Fits}
use libmp.Write.Tables.{chunks_write, stsz_write}
use libmp.Carry.Chunks.{chunk_bytes, chunks_read, with_chunks, chunks_write-IsCarried}
use libmp.Carry.Sizes.{sizes_of, with_sizes, stsz_write-IsCarried}

-- The writer leaves a box of `8 + body` bytes, and in a file that holds them between others the
-- reader gets the value and has read the box.
abbrev pub ReadBack {ℓ} :
    {A : Type ℓ}
    → Res (List ℕ)
    → ℕ
    → ((ℕ → ℕ → Res (List ℕ)) → ℕ → Cursor → Res (A × Cursor))
    → A
    → List ℕ
    → List ℕ
    → Type ℓ
ReadBack written body read value front back =
    (bytes : List ℕ) × (written ≡ ok bytes)
    × (length bytes ≡ 8 + body)
    × (read (file_pread (front ++ (bytes ++ back))) body (inside (length front))
        ≡ ok (value, advance (inside (length front)) body))

read_back {ℓ} :
    {A : Type ℓ} (written : Res (List ℕ)) (body : ℕ)
    (read : (ℕ → ℕ → Res (List ℕ)) → ℕ → Cursor → Res (A × Cursor)) (value : A)
    (front back : List ℕ)
    → IsCarried written body read value
    → ReadBack written body read value front back
read_back written body read value front back h =
    let (bytes, left, size, found) = h in
    (
      bytes,
      left,
      size,
      found (file_pread (front ++ (bytes ++ back))) (length front)
          (file_pread-Holds front bytes back),
    )

module _ (front back : List ℕ) (t : MuxTrack) (raw : RawTrack) (max_bytes kind : ℕ) where
  -- With room for the box, sizes of 32 bits of at least one and at most MAX_ENTRY_COUNT samples are
  -- written, and a track that has none yet reads them back, and takes the largest of them and of
  -- the one it had for the largest size of a sample.
  pub stsz_read-stsz_write :
      0 < length t.samples.entries
      → length t.samples.entries ≤ max_entry_count
      → Fits (sizes_of t)
      → 20 + 4 * length t.samples.entries ≤ max_bytes
      → is_none raw.sample_size ≡ true
      → ReadBack
          (stsz_write max_bytes kind t)
          (12 + 4 * length t.samples.entries)
          (λ pread body c. stsz_read pread true body raw c)
          (with_sizes raw (sizes_of t))
          front
          back
  stsz_read-stsz_write any few small fits fresh =
      read_back _ _ (λ pread body c. stsz_read pread true body raw c) _ front back
        (stsz_write-IsCarried t raw max_bytes kind any few small fits fresh)

  -- With room for the box, offsets of 64 bits of at least one and at most MAX_ENTRY_COUNT chunks are
  -- written in the one of the two tables that `mp4_box_new_stco` picks, and the reader of that
  -- table gives them back: the table of 32-bit offsets is taken only where it loses none.
  pub chunks_read-chunks_write :
      0 < length t.chunks.entries
      → length t.chunks.entries ≤ max_entry_count
      → All (λ o. o < 2 ^ 64) t.chunks.entries
      → 16 + chunk_bytes t * length t.chunks.entries ≤ max_bytes
      → is_none raw.chunk_offset ≡ true
      → ReadBack
          (chunks_write max_bytes t)
          (8 + chunk_bytes t * length t.chunks.entries)
          (chunks_read t raw)
          (with_chunks t raw max_bytes)
          front
          back
  chunks_read-chunks_write any few small fits fresh =
      read_back _ _ (chunks_read t raw) _ front back
        (chunks_write-IsCarried t raw max_bytes any few small fits fresh)

-- With room for the box, times and a duration of 64 bits, a timescale that is not 0 and fewer than
-- 2^32 - 1 tracks, the header of the movie is written, and the reader gets the times, the timescale
-- and the duration back from it.
pub mvhd_read-mvhd_write :
    (front back : List ℕ) (m : Mux) (created modified : ℕ) (f : RawFile) (max_bytes kind : ℕ)
    → TimesFit (movie_times created modified m)
    → m.track_count + 1 < 2 ^ 32
    → 120 ≤ max_bytes
    → ReadBack
        (mvhd_write max_bytes kind created modified m)
        112
        (λ pread body c. mvhd_read pread body f c)
        (with_movie f (movie_times created modified m))
        front
        back
mvhd_read-mvhd_write front back m created modified f max_bytes kind fit few fits =
    read_back _ _ (λ pread body c. mvhd_read pread body f c) _ front back
      (mvhd_write-IsCarried m created modified f max_bytes kind fit few fits)

-- With room for the box and fields that fit, the header of a track is written, and a reader that
-- has read a timescale of the movie before gets the identifier and the three flags back from it.
pub tkhd_read-tkhd_write :
    (front back : List ℕ) (t : MuxTrack) (raw : RawTrack)
    (max_bytes kind width height movie_timescale : ℕ)
    → HeaderFits t
    → 0 < movie_timescale
    → 104 ≤ max_bytes
    → ReadBack
        (tkhd_write max_bytes kind width height t)
        96
        (λ pread body c. tkhd_read pread movie_timescale body raw c)
        (with_header raw t)
        front
        back
tkhd_read-tkhd_write front back t raw max_bytes kind width height movie_timescale fit ticks fits =
    read_back _ _ (λ pread body c. tkhd_read pread movie_timescale body raw c) _ front back
      (tkhd_write-IsCarried t raw max_bytes kind width height movie_timescale fit ticks fits)
