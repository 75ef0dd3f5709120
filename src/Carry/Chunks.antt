-- ===== src/Carry/Chunks.antt =====
-- src/mp4_box_writer.c and src/mp4_box_reader.c together: the offsets of the chunks, in the table of
-- 32-bit or of 64-bit offsets.
use libmp.Mux.{MuxTrack}
use libmp.Prelude.{
  List, ℕ, if◌then◌else◌, Res, ◌≡◌, false, All, true, ◌<◌, ◌^◌, ◌∷◌, ◌-◌, arith, [], length, ◌≤◌,
  some, ◌+◌, ◌*◌, guard-yes, eexist, ◌∙◌, bind-ok, refl, Bool,
}
use libmp.Write.Tables.{
  any_above, is_co64, stco_write, chunks_write, co64_write, type_stco, type_co64, one_word,
  two_words,
}
use libmp.Read.Tables.{RawTrack, co64_read, stco_read, max_entry_count, is_none}
use libmp.Read.{Cursor, read_64, read_32}
use native.Mathlib.Decide.{dec_lt}
use libmp.Read.Entries.{Fits, read_32-Reads, read_64-Reads}
use libmp.Carry.Tables.{IsCarried, write_table-IsCarried, All-map, length-flat}

pub any_above-none : (os : List ℕ) → any_above os ≡ false → All (λ o. o < 2 ^ 32) os
any_above-none [] h = tt
any_above-none (o ∷ os) h = elim (dec_lt (2 ^ 32 - 1) o) [
  | yes over ↦ absurd (ground arith)
  | no under ↦ (omega arith, any_above-none os (ground arith))
]

-- What the reader of the box of the chunk offsets is, by its type
abbrev pub chunks_read :
    MuxTrack → RawTrack → (ℕ → ℕ → Res (List ℕ)) → ℕ → Cursor → Res (RawTrack × Cursor)
chunks_read t raw pread body c =
    if is_co64 t then co64_read pread true body raw c else stco_read pread true body raw c

abbrev pub chunk_bytes : MuxTrack → ℕ
chunk_bytes t = if is_co64 t then 8 else 4

module _ (t : MuxTrack) (raw : RawTrack) (max_bytes : ℕ) where
  abbrev pub with_chunks : RawTrack
  with_chunks = record raw {
    chunk_count = length t.chunks.entries;
    chunk_offset = some t.chunks.entries;
  }

  pub stco_write-IsCarried :
      0 < length t.chunks.entries
      → length t.chunks.entries ≤ max_entry_count
      → Fits t.chunks.entries
      → 16 + 4 * length t.chunks.entries ≤ max_bytes
      → is_none raw.chunk_offset ≡ true
      → IsCarried
          (stco_write max_bytes type_stco t)
          (8 + 4 * length t.chunks.entries)
          (λ pread body c. stco_read pread true body raw c)
          with_chunks
  unfolding stco_write stco_read
  stco_write-IsCarried any few small fits fresh =
      let es = t.chunks.entries in
      let (bytes, written, size, read) =
        write_table-IsCarried read_32 one_word max_bytes type_stco 4 es
          (λ pread. All-map es (read_32-Reads pread) small) any few (omega arith)
          (omega (arith, length-flat one_word 1 es (λ a. refl))) fits in
      (
        bytes,
        written,
        size,
        λ pread offset h. guard-yes eexist _ fresh ∙ bind-ok _ (read pread offset h),
      )

  pub co64_write-IsCarried :
      0 < length t.chunks.entries
      → length t.chunks.entries ≤ max_entry_count
      → All (λ o. o < 2 ^ 64) t.chunks.entries
      → 16 + 8 * length t.chunks.entries ≤ max_bytes
      → is_none raw.chunk_offset ≡ true
      → IsCarried
          (co64_write max_bytes type_co64 t)
          (8 + 8 * length t.chunks.entries)
          (λ pread body c. co64_read pread true body raw c)
          with_chunks
  unfolding co64_write co64_read
  co64_write-IsCarried any few small fits fresh =
      let es = t.chunks.entries in
      let (bytes, written, size, read) =
        write_table-IsCarried read_64 two_words max_bytes type_co64 8 es
          (λ pread. All-map es (read_64-Reads pread) small) any few (omega arith)
          (omega (arith, length-flat two_words 2 es (λ a. refl))) fits in
      (
        bytes,
        written,
        size,
        λ pread offset h. guard-yes eexist _ fresh ∙ bind-ok _ (read pread offset h),
      )

  either_write-IsCarried :
      (b : Bool)
      → is_co64 t ≡ b
      → 0 < length t.chunks.entries
      → length t.chunks.entries ≤ max_entry_count
      → All (λ o. o < 2 ^ 64) t.chunks.entries
      → 16 + (if b then 8 else 4) * length t.chunks.entries ≤ max_bytes
      → is_none raw.chunk_offset ≡ true
      → IsCarried
          (if b then co64_write max_bytes type_co64 t else stco_write max_bytes type_stco t)
          (8 + (if b then 8 else 4) * length t.chunks.entries)
          (λ pread body c.
            if b then co64_read pread true body raw c else stco_read pread true body raw c)
          with_chunks
  unfolding is_co64
  either_write-IsCarried true e any few small fits fresh =
      co64_write-IsCarried any few small fits fresh
  either_write-IsCarried false e any few small fits fresh =
      stco_write-IsCarried any few (any_above-none t.chunks.entries e) fits fresh

  -- With room for the box, offsets that fit 64 bits come back, whichever of the two tables
  -- `mp4_box_new_stco` has taken: the one of 32 bits is taken only where it loses none.
  pub chunks_write-IsCarried :
      0 < length t.chunks.entries
      → length t.chunks.entries ≤ max_entry_count
      → All (λ o. o < 2 ^ 64) t.chunks.entries
      → 16 + chunk_bytes t * length t.chunks.entries ≤ max_bytes
      → is_none raw.chunk_offset ≡ true
      → IsCarried
          (chunks_write max_bytes t)
          (8 + chunk_bytes t * length t.chunks.entries)
          (chunks_read t raw)
          with_chunks
  unfolding chunks_write
  chunks_write-IsCarried any few small fits fresh =
      either_write-IsCarried (is_co64 t) refl any few small fits fresh
