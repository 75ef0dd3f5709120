-- ===== src/Read/Children.antt =====
-- src/mp4_box_reader.c: `mp4_box_children_read`, which reads the boxes in a box and goes down into
-- those that hold boxes. A path is the types of the boxes that are open, the innermost one first; the
-- track that a `trak` box has added is its place in the list. `none` is a run whose fuel is used up.
pub mod Loop
pub mod Ends
pub mod Found
pub mod Passed
use libmp.Read.Handler.{BoxType, box_type, hdlr_read}
use libmp.Prelude.{
  Option, List, ℕ, if◌then◌else◌, Bool, Res, ◌>>◌, some, ok, ltb, ◌∷◌, err, ◌^◌, true, guard, false,
  none, suc, enomem, ◌>>=◌, fault, ◌+◌, not, zero, ◌&&◌, ◌||◌, [], eproto, length, ◌-◌, leb, eio,
  einval, ◌++◌, set, drop,
}
use libmp.Read.Headers.{
  RawFile, ftyp_read, vmhd_read, smhd_read, hmhd_read, nmhd_read, mvhd_read, tkhd_read, tref_read,
  mdhd_read,
}
use libmp.Read.{Cursor, check_size, read_32, read_64}
use libmp.Read.Tables.{RawTrack, stts_read, stss_read, stsz_read, stsc_read, stco_read, co64_read}
use libmp.Types.{TrackType}
use libmp.Track.{read_at}

-- The file, with what is not of the program or not read here: whether `malloc` succeeds, by the
-- offset, and what the readers of stsd, of the metadata (data, .xyz, keys) and of the count of the
-- entries of ilst do.
pub record Env : Type 0 where
  pub pread : ℕ → ℕ → Res (List ℕ)
  pub size : ℕ
  pub room : ℕ → Bool
  pub others : List BoxType → Option ℕ → BoxType → ℕ → RawFile → Cursor → Res (RawFile × Cursor)

-- What the function leaves: the file, the value returned, and where the descriptor stands
pub record Out : Type 0 where
  pub file : RawFile
  pub count : ℕ
  pub offset : ℕ

-- The head of a box: its type, `realBoxSize` and `lastBox`
pub record Head : Type 0 where
  pub kind : BoxType
  pub size : ℕ
  pub last : Bool

-- To go on with a value, when the run has had the fuel and no error.
abbrev pub after {ℓ κ} :
    {A : Type ℓ} {B : Type κ} → Option (Res A) → (A → Option (Res B)) → Option (Res B)
after none next = none
after (some fault) next = some fault
after (some (err e)) next = some (err e)
after (some (ok a)) next = next a

abbrev pub is_type : BoxType → List BoxType → Bool
is_type BoxType.ftyp (BoxType.ftyp ∷ path) = true
is_type BoxType.udta (BoxType.udta ∷ path) = true
is_type BoxType.moov (BoxType.moov ∷ path) = true
is_type BoxType.trak (BoxType.trak ∷ path) = true
is_type BoxType.meta (BoxType.meta ∷ path) = true
is_type BoxType.ilst (BoxType.ilst ∷ path) = true
is_type kind path = false

-- The root is the only box of level 0.
abbrev pub is_root : List BoxType → Bool
is_root (BoxType.root ∷ []) = true
is_root path = false

-- A largesize that is negative as an `off_t` is smaller than any box, as 0 is.
unfoldable pub real_size : ℕ → ℕ
real_size large = if ltb large (2 ^ 63) then large else 0

-- The size and the type; a box of size 0 is taken to be as long as the whole file.
unfoldable pub read_size : Env → ℕ → ℕ → ℕ → BoxType → Cursor → Res (Head × Cursor)
read_size e max_bytes done zero kind c = ok (record { kind = kind; size = e.size; last = true }, c)
read_size e max_bytes done (suc zero) kind c = do
  check_size max_bytes (done + 16)
  (large, c) ← read_64 e.pread c
  ok (record { kind = kind; size = real_size large; last = false }, c)
read_size e max_bytes done size kind c = ok (record { kind = kind; size = size; last = false }, c)

-- `parentReadBytes + realBoxSize` is an `off_t`.
unfoldable pub check_off_t : ℕ → Head × Cursor → Res (Head × Cursor)
check_off_t done r = if ltb (done + r.0.size) (2 ^ 63) then ok r else fault

-- The first box of the file must be `ftyp`.
unfoldable pub check_head : Env → List BoxType → ℕ → ℕ → Bool → ℕ → ℕ → Cursor → Res (Head × Cursor)
check_head e path max_bytes done first size kind c = do
  guard (not (is_root path && first) || is_type BoxType.ftyp (box_type kind ∷ [])) eproto
  r ← read_size e max_bytes done size (box_type kind) c
  check_off_t done r

unfoldable pub read_head : Env → List BoxType → ℕ → ℕ → Bool → Cursor → Res (Head × Cursor)
read_head e path max_bytes done first c = do
  guard (e.room c.offset) enomem
  (size, c) ← read_32 e.pread c
  (kind, c) ← read_32 e.pread c
  check_head e path max_bytes done first size kind c

-- `mp4_track_new`
abbrev pub fresh_track : RawTrack
fresh_track = record {
  id = 0;
  kind = TrackType.unknown;
  name = none;
  enabled = false;
  in_movie = false;
  in_preview = false;
  timescale = 0;
  duration = 0;
  creation_time = 0;
  modification_time = 0;
  sample_count = 0;
  sample_size = none;
  sample_max_size = 0;
  chunk_count = 0;
  chunk_offset = none;
  time_to_sample_entries = none;
  sample_to_chunk_entries = none;
  sync_sample_entry_count = 0;
  sync_sample_entries = none;
  reference_type = 0;
  reference_track_id = [];
}

-- The readers that want a track refuse to have none.
unfoldable pub on_track :
    RawFile → Option ℕ → (RawTrack → Res (RawTrack × Cursor)) → Res (RawFile × Cursor)
on_track f none read = err einval
on_track f (some i) read = do
  t ← read_at f.tracks i
  (u, c) ← read t
  ok (record f { tracks = set f.tracks i u }, c)

-- One that takes any track, or none
unfoldable pub on_maybe :
    RawFile → Option ℕ → (Option RawTrack → Res (Option RawTrack × Cursor)) → Res (RawFile × Cursor)
on_maybe f none read = do (u, c) ← read none; ok (f, c)
on_maybe f (some i) read = do
  t ← read_at f.tracks i
  (u, c) ← read (some t)
  ok (elim u [ none ↦ f | some v ↦ record f { tracks = set f.tracks i v } ], c)

abbrev pub unchanged : RawFile → Res Cursor → Res (RawFile × Cursor)
unchanged f read = read >>= λ c. ok (f, c)

-- The extended type: a short read is taken for 16 bytes.
unfoldable pub uuid_read : (ℕ → ℕ → Res (List ℕ)) → ℕ → Cursor → Res Cursor
uuid_read pread max_bytes c = do
  check_size max_bytes 16
  bytes ← pread c.offset 16
  ok (record { offset = c.offset + length bytes; count = c.count + 16 })

abbrev pub innermost : List BoxType → BoxType
innermost [] = BoxType.other
innermost (kind ∷ path) = kind

-- The call of the function itself, on the path, the track, the size and the file, from an offset on
abbrev pub Down : Type 0
Down = List BoxType → Option ℕ → ℕ → RawFile → ℕ → Option (Res Out)

abbrev pub go_down :
    Down → List BoxType → Option ℕ → ℕ → RawFile → Cursor → Option (Res (RawFile × Cursor))
go_down down path track max_bytes f c =
    after (down path track max_bytes f c.offset)
      λ out. some (ok (out.file, record { offset = out.offset; count = c.count + out.count }))

-- `meta` has 'version' & 'flags' under `udta`, has none under `moov` and `trak`, and is passed over
-- elsewhere.
unfoldable pub meta_body :
    Env → Down → List BoxType → Option ℕ → ℕ → RawFile → Cursor → Option (Res (RawFile × Cursor))
meta_body e down path track max_bytes f c =
    if is_type BoxType.udta path
    then (after (some (check_size max_bytes 4 >> read_32 e.pread c))
        λ r. go_down down (BoxType.meta ∷ path) track (max_bytes - 4) f r.1)
    else if is_type BoxType.moov path || is_type BoxType.trak path
    then go_down down (BoxType.meta ∷ path) track max_bytes f c
    else some (ok (f, c))

-- The `switch` on the type of a box, of which `max_bytes` bytes are left; the cursor counts from
-- there on.
unfoldable pub body :
    Env
    → Down
    → List BoxType
    → Option ℕ
    → BoxType
    → ℕ
    → RawFile
    → Cursor
    → Option (Res (RawFile × Cursor))
body e down path track BoxType.moov max_bytes f c =
    go_down down (BoxType.moov ∷ path) track max_bytes f c
body e down path track BoxType.udta max_bytes f c =
    go_down down (BoxType.udta ∷ path) track max_bytes f c
body e down path track BoxType.mdia max_bytes f c =
    go_down down (BoxType.mdia ∷ path) track max_bytes f c
body e down path track BoxType.minf max_bytes f c =
    go_down down (BoxType.minf ∷ path) track max_bytes f c
body e down path track BoxType.dinf max_bytes f c =
    go_down down (BoxType.dinf ∷ path) track max_bytes f c
body e down path track BoxType.stbl max_bytes f c =
    go_down down (BoxType.stbl ∷ path) track max_bytes f c
body e down path track BoxType.trak max_bytes f c =
    after (some (guard (e.room c.offset) enomem)) λ done.
      go_down down (BoxType.trak ∷ path) (some (length f.tracks)) max_bytes
        (record f { tracks = f.tracks ++ (fresh_track ∷ []) }) c
body e down path track BoxType.ftyp max_bytes f c =
    some (unchanged f (ftyp_read e.pread max_bytes c))
body e down path track BoxType.vmhd max_bytes f c =
    some (unchanged f (vmhd_read e.pread max_bytes c))
body e down path track BoxType.smhd max_bytes f c =
    some (unchanged f (smhd_read e.pread max_bytes c))
body e down path track BoxType.hmhd max_bytes f c =
    some (unchanged f (hmhd_read e.pread max_bytes c))
body e down path track BoxType.nmhd max_bytes f c =
    some (unchanged f (nmhd_read e.pread max_bytes c))
body e down path track BoxType.mvhd max_bytes f c = some (mvhd_read e.pread max_bytes f c)
body e down path track BoxType.tkhd max_bytes f c =
    some (on_track f track (λ t. tkhd_read e.pread f.timescale max_bytes t c))
body e down path track BoxType.tref max_bytes f c =
    some (on_track f track (λ t. tref_read e.pread max_bytes t c))
body e down path track BoxType.mdhd max_bytes f c =
    some (on_track f track (λ t. mdhd_read e.pread max_bytes t c))
body e down path track BoxType.hdlr max_bytes f c =
    some
      (on_maybe f track (λ t. hdlr_read e.pread (e.room c.offset) (innermost path) max_bytes t c))
body e down path track BoxType.stts max_bytes f c =
    some (on_track f track (λ t. stts_read e.pread (e.room c.offset) max_bytes t c))
body e down path track BoxType.stss max_bytes f c =
    some (on_track f track (λ t. stss_read e.pread (e.room c.offset) max_bytes t c))
body e down path track BoxType.stsz max_bytes f c =
    some (on_track f track (λ t. stsz_read e.pread (e.room c.offset) max_bytes t c))
body e down path track BoxType.stsc max_bytes f c =
    some (on_track f track (λ t. stsc_read e.pread (e.room c.offset) max_bytes t c))
body e down path track BoxType.stco max_bytes f c =
    some (on_track f track (λ t. stco_read e.pread (e.room c.offset) max_bytes t c))
body e down path track BoxType.co64 max_bytes f c =
    some (on_track f track (λ t. co64_read e.pread (e.room c.offset) max_bytes t c))
body e down path track BoxType.stsd max_bytes f c =
    some (e.others path track BoxType.stsd max_bytes f c)
body e down path track BoxType.item max_bytes f c =
    some (e.others path track BoxType.item max_bytes f c)
body e down path track BoxType.location max_bytes f c = some (
    if is_type BoxType.udta path
    then e.others path track BoxType.location max_bytes f c
    else ok (f, c))
body e down path track BoxType.keys max_bytes f c = some (
    if is_type BoxType.meta path then e.others path track BoxType.keys max_bytes f c else ok (f, c))
body e down path track BoxType.meta max_bytes f c = meta_body e down path track max_bytes f c
body e down path track BoxType.ilst max_bytes f c =
    after
      (some (
        if is_type BoxType.udta (drop 1 path)
        then e.others path track BoxType.ilst max_bytes f c
        else ok (f, c)))
      λ r. go_down down (BoxType.ilst ∷ path) track max_bytes r.0 c
body e down path track BoxType.uuid max_bytes f c =
    some (unchanged f (uuid_read e.pread max_bytes c))
body e down path track kind max_bytes f c =
    if is_type BoxType.ilst path
    then go_down down (kind ∷ path) track max_bytes f c
    else some (ok (f, c))
