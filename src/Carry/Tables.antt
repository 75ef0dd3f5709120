-- ===== src/Carry/Tables.antt =====
-- src/mp4_box_writer.c and src/mp4_box_reader.c together: the tables of a track, written and read.
use libmp.Prelude.{
  ℕ, ◌+◌, Res, List, All, length, ◌≤◌, ◌*◌, ◌≡◌, ◌∷◌, [], true, ok, arith, ◌%◌, ◌^◌, refl, ◌<◌,
  length-append, some, guard-yes, eexist, ◌∙◌, bind-ok,
}
use libmp.Write.Exact.{table_words, write_table-fits}
use libmp.Read.{Cursor, advance, read_32}
use libmp.Read.Each.{Reads, flat, read_table-All, Holds-words}
use libmp.Read.Tables.{
  max_entry_count, read_table, stts_read, RawTrack, is_none, read_time_to_sample, stsc_read,
  stss_read, read_sample_to_chunk,
}
use libmp.Read.Holds.{Holds}
use libmp.Bytes.{words, length-words}
use libmp.Write.Tables.{
  write_table, stts_write, time_to_sample_words, stsc_write, stss_write, sample_to_chunk_words,
  one_word,
}
use libmp.Mux.{MuxTrack}
use libmp.Read.Entries.{Fits, read_time_to_sample-Reads, read_sample_to_chunk-Reads, read_32-Reads}

-- Where the reader of a box at an offset begins, behind the size and the type
abbrev pub inside : ℕ → Cursor
inside offset = record { offset = offset + 8; count = 0 }

-- A table that stands in a file is read back, and the whole box with it.
table_read-write {ℓ} :
    {A : Type ℓ} (pread : ℕ → ℕ → Res (List ℕ)) (one : Cursor → Res (A × Cursor)) (enc : A → List ℕ)
    (kind width offset : ℕ) (es : List A)
    → All (Reads pread one enc) es
    → length es ≤ max_entry_count
    → 4 * length (flat enc es) ≡ width * length es
    → Holds pread offset (words (table_words kind 16 width (0 ∷ []) enc es))
    → read_table pread true (8 + width * length es) width one (inside offset)
      ≡ ok (es, advance (inside offset) (8 + width * length es))
table_read-write pread one enc kind width offset es r few wide h =
    read_table-All pread one enc (8 + width * length es) width 0 es (inside offset) r (omega arith)
      few (omega (arith, wide)) refl (omega arith)
      (Holds-words pread offset ((16 + width * length es % 2 ^ 32) ∷ kind ∷ [])
        (0 ∷ length es ∷ flat enc es) h)

-- What is written is a box of `8 + body` bytes, and where it stands in a file, the reader gets the
-- value and has read the box.
abbrev pub IsCarried {ℓ} :
    {A : Type ℓ}
    → Res (List ℕ)
    → ℕ
    → ((ℕ → ℕ → Res (List ℕ)) → ℕ → Cursor → Res (A × Cursor))
    → A
    → Type ℓ
IsCarried written body read value =
    (bytes : List ℕ) × (written ≡ ok bytes)
    × (length bytes ≡ 8 + body)
    × ((pread : ℕ → ℕ → Res (List ℕ)) (offset : ℕ)
        → Holds pread offset bytes
        → read pread body (inside offset) ≡ ok (value, advance (inside offset) body))

pub write_table-IsCarried {ℓ} :
    {A : Type ℓ} (one : (ℕ → ℕ → Res (List ℕ)) → Cursor → Res (A × Cursor)) (enc : A → List ℕ)
    (max_bytes kind width : ℕ) (es : List A)
    → ((pread : ℕ → ℕ → Res (List ℕ)) → All (Reads pread (one pread) enc) es)
    → 0 < length es
    → length es ≤ max_entry_count
    → width * length es < 2 ^ 32
    → 4 * length (flat enc es) ≡ width * length es
    → 16 + width * length es ≤ max_bytes
    → IsCarried
        (write_table max_bytes kind 16 width (0 ∷ []) enc es)
        (8 + width * length es)
        (λ pread body c. read_table pread true body width (one pread) c)
        es
write_table-IsCarried one enc max_bytes kind width [] r any few small wide fits =
    absurd (omega arith)
write_table-IsCarried one enc max_bytes kind width (e ∷ es) r any few small wide fits =
    let k : 4 * length (table_words kind 16 width (0 ∷ []) enc (e ∷ es))
        ≡ 16 + width * length (e ∷ es) =
      omega (arith, wide) in
    (
      words (table_words kind 16 width (0 ∷ []) enc (e ∷ es)),
      write_table-fits max_bytes kind 16 width (0 ∷ []) enc e es wide refl small fits,
      omega (arith, k, length-words (table_words kind 16 width (0 ∷ []) enc (e ∷ es))),
      λ pread offset h.
          table_read-write pread (one pread) enc kind width offset (e ∷ es) (r pread) few wide h,
    )

pub All-map {ℓ κ μ} :
    {A : Type ℓ} {P : A → Type κ} {Q : A → Type μ} (es : List A)
    → ((a : A) → P a → Q a)
    → All P es
    → All Q es
All-map [] f h = tt
All-map (e ∷ es) f h = (f e h.0, All-map es f h.1)

pub length-flat {ℓ} :
    {A : Type ℓ} (enc : A → List ℕ) (k : ℕ) (es : List A)
    → ((a : A) → length (enc a) ≡ k)
    → length (flat enc es) ≡ k * length es
length-flat enc k [] h = omega arith
length-flat enc k (e ∷ es) h =
    omega (arith, length-append (enc e) (flat enc es), h e, length-flat enc k es h)

-- The decoding times: with room for the box, entries that the reader takes come back.
pub stts_write-IsCarried :
    (t : MuxTrack) (raw : RawTrack) (max_bytes kind : ℕ)
    → let es = t.time_to_sample.entries in
      0 < length es
      → length es ≤ max_entry_count
      → All (λ e. Fits (time_to_sample_words e)) es
      → 16 + 8 * length es ≤ max_bytes
      → is_none raw.time_to_sample_entries ≡ true
      → IsCarried
          (stts_write max_bytes kind t)
          (8 + 8 * length es)
          (λ pread body c. stts_read pread true body raw c)
          (record raw { time_to_sample_entries = some es })
unfolding stts_write stts_read
stts_write-IsCarried t raw max_bytes kind any few small fits fresh =
    let es = t.time_to_sample.entries in
    let (bytes, written, size, read) =
      write_table-IsCarried read_time_to_sample time_to_sample_words max_bytes kind 8 es
        (λ pread. All-map es (read_time_to_sample-Reads pread) small) any few (omega arith)
        (omega (arith, length-flat time_to_sample_words 2 es (λ a. refl))) fits in
    (
      bytes,
      written,
      size,
      λ pread offset h. guard-yes eexist _ fresh ∙ bind-ok _ (read pread offset h),
    )

-- The sync samples, likewise
pub stss_write-IsCarried :
    (t : MuxTrack) (raw : RawTrack) (max_bytes kind : ℕ)
    → let es = t.sync.entries in
      0 < length es
      → length es ≤ max_entry_count
      → Fits es
      → 16 + 4 * length es ≤ max_bytes
      → is_none raw.sync_sample_entries ≡ true
      → IsCarried
          (stss_write max_bytes kind t)
          (8 + 4 * length es)
          (λ pread body c. stss_read pread true body raw c)
          (record raw { sync_sample_entry_count = length es; sync_sample_entries = some es })
unfolding stss_write stss_read
stss_write-IsCarried t raw max_bytes kind any few small fits fresh =
    let es = t.sync.entries in
    let (bytes, written, size, read) =
      write_table-IsCarried read_32 one_word max_bytes kind 4 es
        (λ pread. All-map es (read_32-Reads pread) small) any few (omega arith)
        (omega (arith, length-flat one_word 1 es (λ a. refl))) fits in
    (
      bytes,
      written,
      size,
      λ pread offset h. guard-yes eexist _ fresh ∙ bind-ok _ (read pread offset h),
    )

-- The samples of the chunks
pub stsc_write-IsCarried :
    (t : MuxTrack) (raw : RawTrack) (max_bytes kind : ℕ)
    → let es = t.sample_to_chunk.entries in
      0 < length es
      → length es ≤ max_entry_count
      → All (λ e. Fits (sample_to_chunk_words e)) es
      → 16 + 12 * length es ≤ max_bytes
      → is_none raw.sample_to_chunk_entries ≡ true
      → IsCarried
          (stsc_write max_bytes kind t)
          (8 + 12 * length es)
          (λ pread body c. stsc_read pread true body raw c)
          (record raw { sample_to_chunk_entries = some es })
unfolding stsc_write stsc_read
stsc_write-IsCarried t raw max_bytes kind any few small fits fresh =
    let es = t.sample_to_chunk.entries in
    let (bytes, written, size, read) =
      write_table-IsCarried read_sample_to_chunk sample_to_chunk_words max_bytes kind 12 es
        (λ pread. All-map es (read_sample_to_chunk-Reads pread) small) any few (omega arith)
        (omega (arith, length-flat sample_to_chunk_words 3 es (λ a. refl))) fits in
    (
      bytes,
      written,
      size,
      λ pread offset h. guard-yes eexist _ fresh ∙ bind-ok _ (read pread offset h),
    )
