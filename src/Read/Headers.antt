-- ===== src/Read/Headers.antt =====
-- src/mp4_box_reader.c: the readers of the headers (ftyp, mvhd, tkhd, tref, mdhd, vmhd, smhd, hmhd,
-- nmhd, hdlr). What a reader only logs is read and left, but the divisions that make the logged
-- hours, minutes and seconds are kept where they can have the divisor 0.
use libmp.Prelude.{
  ℕ, Bool, List, Res, ◌/◌, ◌^◌, if◌then◌else◌, ◌%◌, ◌==◌, ◌>>◌, ◌>>=◌, fault, ◌*◌, ok, guard, ◌-◌,
  ltb, eproto,
}
use libmp.Read.{Cursor, check_size, read_64, read_32, read_each, skip_rest, read_be}
use libmp.Read.Tables.{RawTrack}
use Prim.Native.Nat.{min}
use libmp.Mux.Sample.{track_ref_max}

-- What the boxes tell of the file, in `struct mp4_file`
pub record RawFile : Type 0 where
  pub creation_time : ℕ
  pub modification_time : ℕ
  pub timescale : ℕ
  pub duration : ℕ
  pub tracks : List RawTrack

-- The number that the bits `version` of a word of 'version' & 'flags' make
abbrev pub version_of : ℕ → ℕ
version_of w = w / 2 ^ 24 % 2 ^ 8

-- The bit `k` of the flags
abbrev pub flag : ℕ → ℕ → Bool
flag w k = w / 2 ^ k % 2 == 1

-- A time, which has 64 bits in version 1 of a box
abbrev pub read_time : ℕ → (ℕ → ℕ → Res (List ℕ)) → Cursor → Res (ℕ × Cursor)
read_time version = if version == 1 then read_64 else read_32

-- CHECK_SIZE on a version 1 box, for the longer times
abbrev pub check_version : ℕ → ℕ → ℕ → Res (Unit {0})
check_version version max_bytes expected =
    if version == 1 then check_size max_bytes expected else ok tt

-- `mp4_box_ftyp_read`: the rounds of the loop are the words that are left.
unfoldable pub ftyp_read : (ℕ → ℕ → Res (List ℕ)) → ℕ → Cursor → Res Cursor
ftyp_read pread max_bytes c = do
  check_size max_bytes 8
  (major_brand, c) ← read_32 pread c
  (minor_version, c) ← read_32 pread c
  (compatible_brands, c) ← read_each (read_32 pread) ((max_bytes - c.count) / 4) c
  ok (skip_rest max_bytes c)

-- The four numbers that `mvhd` and `mdhd` share
pub record Times : Type 0 where
  pub creation_time : ℕ
  pub modification_time : ℕ
  pub timescale : ℕ
  pub duration : ℕ

unfoldable pub read_times : (ℕ → ℕ → Res (List ℕ)) → ℕ → Cursor → Res (Times × Cursor)
read_times pread version c = do
  (created, c) ← read_time version pread c
  (modified, c) ← read_time version pread c
  (ticks, c) ← read_32 pread c
  guard (ltb 0 ticks) eproto
  (length, c) ← read_time version pread c
  ok (
    record {
      creation_time = created;
      modification_time = modified;
      timescale = ticks;
      duration = length;
    },
    c,
  )

-- `mp4_box_mvhd_read`: behind the times there are the rate, the volume, two reserved words, nine of
-- the matrix, six predefined ones and the next track's identifier.
unfoldable pub mvhd_read : (ℕ → ℕ → Res (List ℕ)) → ℕ → RawFile → Cursor → Res (RawFile × Cursor)
mvhd_read pread max_bytes f c = do
  check_size max_bytes 100
  (head, c) ← read_32 pread c
  check_version (version_of head) max_bytes 112
  (times, c) ← read_times pread (version_of head) c
  (others, c) ← read_each (read_32 pread) 20 c
  ok (
    record f {
      creation_time = times.creation_time;
      modification_time = times.modification_time;
      timescale = times.timescale;
      duration = times.duration;
    },
    skip_rest max_bytes c,
  )

-- A division by the number
abbrev pub divisible_by : ℕ → Res (Unit {0})
divisible_by n = if n == 0 then fault else ok tt

-- `mp4_box_tkhd_read`; `movie_timescale` is that of the file, by which the duration is divided.
-- Behind the duration there are two reserved words, the layer, the volume, nine words of the matrix,
-- the width and the height.
unfoldable pub tkhd_read :
    (ℕ → ℕ → Res (List ℕ)) → ℕ → ℕ → RawTrack → Cursor → Res (RawTrack × Cursor)
tkhd_read pread movie_timescale max_bytes t c = do
  check_size max_bytes 84
  (head, c) ← read_32 pread c
  check_version (version_of head) max_bytes 96
  (created, c) ← read_time (version_of head) pread c
  (modified, c) ← read_time (version_of head) pread c
  (id, c) ← read_32 pread c
  (reserved, c) ← read_32 pread c
  (duration, c) ← read_time (version_of head) pread c
  divisible_by movie_timescale
  (others, c) ← read_each (read_32 pread) 15 c
  ok (
    record t { id = id; enabled = flag head 0; in_movie = flag head 1; in_preview = flag head 2 },
    skip_rest max_bytes c,
  )

-- `mp4_box_tref_read`: at most MP4_TRACK_REF_MAX identifiers are kept, and the rest is skipped.
unfoldable pub tref_read : (ℕ → ℕ → Res (List ℕ)) → ℕ → RawTrack → Cursor → Res (RawTrack × Cursor)
tref_read pread max_bytes t c = do
  check_size max_bytes 12
  (size, c) ← read_32 pread c
  (kind, c) ← read_32 pread c
  (ids, c) ← read_each (read_32 pread) (min ((max_bytes - c.count) / 4) track_ref_max) c
  ok (record t { reference_type = kind; reference_track_id = ids }, skip_rest max_bytes c)

-- `mp4_box_mdhd_read`
unfoldable pub mdhd_read : (ℕ → ℕ → Res (List ℕ)) → ℕ → RawTrack → Cursor → Res (RawTrack × Cursor)
mdhd_read pread max_bytes t c = do
  check_size max_bytes 24
  (head, c) ← read_32 pread c
  check_version (version_of head) max_bytes 36
  (times, c) ← read_times pread (version_of head) c
  (language, c) ← read_32 pread c
  ok (
    record t {
      creation_time = times.creation_time;
      modification_time = times.modification_time;
      timescale = times.timescale;
      duration = times.duration;
    },
    skip_rest max_bytes c,
  )

-- `mp4_box_vmhd_read`: a word and four half words, which are logged.
unfoldable pub vmhd_read : (ℕ → ℕ → Res (List ℕ)) → ℕ → Cursor → Res Cursor
vmhd_read pread max_bytes c = do
  check_size max_bytes 12
  (head, c) ← read_32 pread c
  (halves, c) ← read_each (read_be 2 pread) 4 c
  ok (skip_rest max_bytes c)

-- `mp4_box_smhd_read`, `mp4_box_hmhd_read` and `mp4_box_nmhd_read`: words that are logged.
unfoldable pub logged_read : ℕ → (ℕ → ℕ → Res (List ℕ)) → ℕ → Cursor → Res Cursor
logged_read n pread max_bytes c = do
  check_size max_bytes (n * 4)
  (ws, c) ← read_each (read_32 pread) n c
  ok (skip_rest max_bytes c)

abbrev pub smhd_read : (ℕ → ℕ → Res (List ℕ)) → ℕ → Cursor → Res Cursor
smhd_read = logged_read 2

abbrev pub hmhd_read : (ℕ → ℕ → Res (List ℕ)) → ℕ → Cursor → Res Cursor
hmhd_read = logged_read 5

abbrev pub nmhd_read : (ℕ → ℕ → Res (List ℕ)) → ℕ → Cursor → Res Cursor
nmhd_read = logged_read 1
