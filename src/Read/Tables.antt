-- ===== src/Read/Tables.antt =====
-- src/mp4_box_reader.c: the readers of the six tables of a track (stts, stss, stsz, stsc, stco,
-- co64). The track is the one that `mp4_track_add` made, so `track == NULL` is no case; a table that
-- is not read yet is `none`, which the source writes NULL. `room` says that `malloc` succeeds.
use libmp.Prelude.{
  ℕ, Option, Bool, Res, List, true, ◌>>◌, ◌>>=◌, ◌∷◌, some, if◌then◌else◌, guard, false, ltb, ok,
  ◌+◌, eexist, leb, suc, length, ◌*◌, eproto, [], none, replicate, enomem, zero,
}
use libmp.Read.{Cursor, read_32, check_size, read_64, read_each, skip_rest}
use libmp.Types.{TrackType, TimeToSampleEntry, SampleToChunkEntry}

-- `struct mp4_track` while its boxes are read
pub record RawTrack : Type 0 where
  pub id : ℕ
  pub kind : TrackType
  pub name : Option (List ℕ)
  pub enabled : Bool
  pub in_movie : Bool
  pub in_preview : Bool
  pub timescale : ℕ
  pub duration : ℕ
  pub creation_time : ℕ
  pub modification_time : ℕ
  pub sample_count : ℕ
  pub sample_size : Option (List ℕ)
  pub sample_max_size : ℕ
  pub chunk_count : ℕ
  pub chunk_offset : Option (List ℕ)
  pub time_to_sample_entries : Option (List TimeToSampleEntry)
  pub sample_to_chunk_entries : Option (List SampleToChunkEntry)
  pub sync_sample_entry_count : ℕ
  pub sync_sample_entries : Option (List ℕ)
  pub reference_type : ℕ
  pub reference_track_id : List ℕ

-- MAX_ENTRY_COUNT
abbrev pub max_entry_count : ℕ
max_entry_count = 10000000

abbrev pub is_none {ℓ} : {A : Type ℓ} → Option A → Bool
is_none none = true
is_none (some a) = false

-- 'entry_count', its check and the allocation
unfoldable pub read_count : (ℕ → ℕ → Res (List ℕ)) → Bool → Cursor → Res (ℕ × Cursor)
read_count pread room c = do
  (count, c) ← read_32 pread c
  guard (leb count max_entry_count) eproto
  guard room enomem
  ok (count, c)

-- The check on the table's size, the loop over its entries of `width` bytes, and the skip.
unfoldable pub read_entries {ℓ} :
    {A : Type ℓ} → ℕ → ℕ → ℕ → (Cursor → Res (A × Cursor)) → ℕ → Cursor → Res (List A × Cursor)
read_entries max_bytes before width one count c = do
  check_size max_bytes (before + count * width)
  (es, c) ← read_each one count c
  ok (es, skip_rest max_bytes c)

-- A whole table that begins with 'version' & 'flags' and 'entry_count'
unfoldable pub read_table {ℓ} :
    {A : Type ℓ}
    → (ℕ → ℕ → Res (List ℕ))
    → Bool
    → ℕ
    → ℕ
    → (Cursor → Res (A × Cursor))
    → Cursor
    → Res (List A × Cursor)
read_table pread room max_bytes width one c = do
  check_size max_bytes 8
  (flags, c) ← read_32 pread c
  (count, c) ← read_count pread room c
  read_entries max_bytes 8 width one count c

unfoldable pub read_time_to_sample :
    (ℕ → ℕ → Res (List ℕ)) → Cursor → Res (TimeToSampleEntry × Cursor)
read_time_to_sample pread c = do
  (count, c) ← read_32 pread c
  (delta, c) ← read_32 pread c
  ok (record { sample_count = count; sample_delta = delta }, c)

unfoldable pub read_sample_to_chunk :
    (ℕ → ℕ → Res (List ℕ)) → Cursor → Res (SampleToChunkEntry × Cursor)
read_sample_to_chunk pread c = do
  (first, c) ← read_32 pread c
  (per, c) ← read_32 pread c
  (index, c) ← read_32 pread c
  ok (record { first_chunk = first; samples_per_chunk = per; sample_description_index = index }, c)

-- `mp4_box_stts_read`, with the value that it returns, which the cursor counts
unfoldable pub stts_read :
    (ℕ → ℕ → Res (List ℕ)) → Bool → ℕ → RawTrack → Cursor → Res (RawTrack × Cursor)
stts_read pread room max_bytes t c = do
  guard (is_none t.time_to_sample_entries) eexist
  (es, c) ← read_table pread room max_bytes 8 (read_time_to_sample pread) c
  ok (record t { time_to_sample_entries = some es }, c)

-- `mp4_box_stss_read`
unfoldable pub stss_read :
    (ℕ → ℕ → Res (List ℕ)) → Bool → ℕ → RawTrack → Cursor → Res (RawTrack × Cursor)
stss_read pread room max_bytes t c = do
  guard (is_none t.sync_sample_entries) eexist
  (es, c) ← read_table pread room max_bytes 4 (read_32 pread) c
  ok (record t { sync_sample_entry_count = length es; sync_sample_entries = some es }, c)

-- The largest of the sizes that the loop of `mp4_box_stsz_read` has seen
abbrev pub max_size : ℕ → List ℕ → ℕ
max_size largest [] = largest
max_size largest (s ∷ ss) = max_size (if ltb largest s then s else largest) ss

-- The sizes of the samples: one each, or the same for all of them
unfoldable pub stsz_sizes :
    (ℕ → ℕ → Res (List ℕ)) → ℕ → ℕ → ℕ → RawTrack → Cursor → Res (RawTrack × Cursor)
stsz_sizes pread max_bytes zero count t c = do
  (es, c) ← read_entries max_bytes 12 4 (read_32 pread) count c
  ok (
    record t {
      sample_count = count;
      sample_size = some es;
      sample_max_size = max_size t.sample_max_size es;
    },
    c,
  )
stsz_sizes pread max_bytes (suc n) count t c = ok (
  record t { sample_count = count; sample_size = some (replicate count (suc n)) },
  skip_rest max_bytes c,
)

-- `mp4_box_stsz_read`
unfoldable pub stsz_read :
    (ℕ → ℕ → Res (List ℕ)) → Bool → ℕ → RawTrack → Cursor → Res (RawTrack × Cursor)
stsz_read pread room max_bytes t c = do
  guard (is_none t.sample_size) eexist
  check_size max_bytes 12
  (flags, c) ← read_32 pread c
  (size, c) ← read_32 pread c
  (count, c) ← read_count pread room c
  stsz_sizes pread max_bytes size count t c

-- `mp4_box_stsc_read`
unfoldable pub stsc_read :
    (ℕ → ℕ → Res (List ℕ)) → Bool → ℕ → RawTrack → Cursor → Res (RawTrack × Cursor)
stsc_read pread room max_bytes t c = do
  guard (is_none t.sample_to_chunk_entries) eexist
  (es, c) ← read_table pread room max_bytes 12 (read_sample_to_chunk pread) c
  ok (record t { sample_to_chunk_entries = some es }, c)

-- `mp4_box_stco_read`
unfoldable pub stco_read :
    (ℕ → ℕ → Res (List ℕ)) → Bool → ℕ → RawTrack → Cursor → Res (RawTrack × Cursor)
stco_read pread room max_bytes t c = do
  guard (is_none t.chunk_offset) eexist
  (es, c) ← read_table pread room max_bytes 4 (read_32 pread) c
  ok (record t { chunk_count = length es; chunk_offset = some es }, c)

-- `mp4_box_co64_read`
unfoldable pub co64_read :
    (ℕ → ℕ → Res (List ℕ)) → Bool → ℕ → RawTrack → Cursor → Res (RawTrack × Cursor)
co64_read pread room max_bytes t c = do
  guard (is_none t.chunk_offset) eexist
  (es, c) ← read_table pread room max_bytes 8 (read_64 pread) c
  ok (record t { chunk_count = length es; chunk_offset = some es }, c)
