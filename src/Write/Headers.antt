-- ===== src/Write/Headers.antt =====
-- src/mp4_box_writer.c: the writers of the headers (mvhd, tkhd, tref's content, mdhd, vmhd, smhd,
-- nmhd, gmhd, hdlr, dref), of the empty box, and of `ftyp`. Each is its run of values.
use libmp.Prelude.{
  ℕ, List, Option, ◌*◌, Res, ◌+◌, ◌∷◌, ◌%◌, ◌>>=◌, ◌^◌, ◌/◌, ok, some, [], length, ◌++◌, none, ◌-◌,
  err, enoent, einval, take, ◌==◌, if◌then◌else◌,
}
use libmp.Types.{TrackType}
use libmp.Bytes.{be_32, be_16}
use libmp.Mux.{Mux, MuxTrack, track_find_by_handle}
use libmp.Demux.Info.{validate_str_len, name_max}
use libmp.Write.{write_box, write_words, zeroes, fix_size, write_32}

abbrev pub high : ℕ → List ℕ
high v = be_32 (v / 2 ^ 32)

abbrev pub low : ℕ → List ℕ
low v = be_32 (v % 2 ^ 32)

-- The matrix, of which only the diagonal is not 0
abbrev pub matrix : List (List ℕ)
matrix = be_32 0x00010000 ∷ zeroes 12 ∷ be_32 0x00010000 ∷ zeroes 12 ∷ be_32 0x40000000 ∷ []

-- `mp4_box_mvhd_write`, with the creation and the modification time of the muxer
unfoldable pub mvhd_write : ℕ → ℕ → ℕ → ℕ → Mux → Res (List ℕ)
mvhd_write max_bytes kind created modified m = write_box max_bytes 120 kind (
    (be_32 0x01000000
      ∷ high created
      ∷ low created
      ∷ high modified
      ∷ low modified
      ∷ be_32 m.timescale
      ∷ high m.duration
      ∷ low m.duration
      ∷ be_32 0x00010000
      ∷ be_16 0x0100
      ∷ zeroes 10
      ∷ [])
    ++ matrix
    ++ (zeroes 24 ∷ be_32 (m.track_count + 1) ∷ []))

abbrev pub volume_of : TrackType → ℕ
volume_of TrackType.audio = 0x0100
volume_of kind = 0

-- 'width' and 'height', in 16.16 fixed point
abbrev pub extent_of : TrackType → ℕ → ℕ
extent_of TrackType.video pixels = pixels * 2 ^ 16 % 2 ^ 32
extent_of kind pixels = 0

-- `mp4_box_tkhd_write`, with the width and the height of a video
unfoldable pub tkhd_write : ℕ → ℕ → ℕ → ℕ → MuxTrack → Res (List ℕ)
tkhd_write max_bytes kind width height t = write_box max_bytes 104 kind (
    (be_32 (t.flags % 2 ^ 3 + 0x01000000)
      ∷ high t.creation_time
      ∷ low t.creation_time
      ∷ high t.modification_time
      ∷ low t.modification_time
      ∷ be_32 t.id
      ∷ zeroes 4
      ∷ high t.duration_moov
      ∷ low t.duration_moov
      ∷ zeroes 8
      ∷ be_32 0
      ∷ be_16 (volume_of t.kind)
      ∷ zeroes 2
      ∷ [])
    ++ matrix
    ++ (be_32 (extent_of t.kind width) ∷ be_32 (extent_of t.kind height) ∷ []))

-- `mp4_box_mdhd_write`
unfoldable pub mdhd_write : ℕ → ℕ → MuxTrack → Res (List ℕ)
mdhd_write max_bytes kind t = write_box max_bytes 44 kind (
    be_32 0x01000000
    ∷ high t.creation_time
    ∷ low t.creation_time
    ∷ high t.modification_time
    ∷ low t.modification_time
    ∷ be_32 t.timescale
    ∷ high t.duration
    ∷ low t.duration
    ∷ be_32 0
    ∷ [])

-- `mp4_box_vmhd_write`, `mp4_box_smhd_write`, `mp4_box_nmhd_write` and `mp4_box_empty_write`
unfoldable pub vmhd_write : ℕ → ℕ → Res (List ℕ)
vmhd_write max_bytes kind = write_box max_bytes 20 kind (be_32 1 ∷ zeroes 8 ∷ [])

unfoldable pub smhd_write : ℕ → ℕ → Res (List ℕ)
smhd_write max_bytes kind = write_box max_bytes 16 kind (be_32 0 ∷ be_32 0 ∷ [])

unfoldable pub nmhd_write : ℕ → ℕ → Res (List ℕ)
nmhd_write max_bytes kind = write_box max_bytes 12 kind (be_32 0 ∷ [])

unfoldable pub empty_write : ℕ → ℕ → Res (List ℕ)
empty_write max_bytes kind = write_box max_bytes 8 kind []

-- `mp4_box_gmin_write`
unfoldable pub gmin_write : ℕ → Res (List ℕ)
gmin_write max_bytes =
    write_box max_bytes 24 0x676d696e
      (be_32 0 ∷ be_16 0x40 ∷ be_16 0x8000 ∷ be_16 0x8000 ∷ be_16 0x8000 ∷ be_16 0 ∷ zeroes 2 ∷ [])

-- `mp4_box_gmhd_write`
unfoldable pub gmhd_write : ℕ → ℕ → Res (List ℕ)
gmhd_write max_bytes kind = do
  out ← write_words max_bytes (0 ∷ kind ∷ []) []
  gmin ← gmin_write (max_bytes - length out)
  ok (fix_size 0 (out ++ gmin))

-- The loop of `mp4_box_tref_content_write`: the identifier of the track of each handle
unfoldable pub tref_loop : ℕ → Mux → List ℕ → List ℕ → Res (List ℕ)
tref_loop max_bytes m [] out = ok out
tref_loop max_bytes m (handle ∷ handles) out = elim (track_find_by_handle m handle) [
  | none ↦ err enoent
  | some t ↦ write_32 max_bytes t.id out >>= tref_loop max_bytes m handles
]

-- `mp4_box_tref_content_write`
unfoldable pub tref_content_write : ℕ → ℕ → Mux → MuxTrack → Res (List ℕ)
tref_content_write max_bytes kind m t =
    let size = 8 + 4 * length t.reference_track_handle in
    do
      out ← write_words max_bytes (size ∷ kind ∷ []) []
      out ← tref_loop max_bytes m t.reference_track_handle out
      ok (fix_size size out)

-- A child: a writer, given what is left of the buffer, or none
abbrev pub Writer : Type 0
Writer = Option (ℕ → Res (List ℕ))

-- The loop of `mp4_box_container_write` over its children
unfoldable pub container_loop : ℕ → List Writer → List ℕ → Res (List ℕ)
container_loop max_bytes [] out = ok out
container_loop max_bytes (none ∷ children) out = container_loop max_bytes children out
container_loop max_bytes (some write ∷ children) out =
    write (max_bytes - length out) >>= λ child. container_loop max_bytes children (out ++ child)

-- `mp4_box_container_write`, whose bytes are fewer than OFF_MAX
unfoldable pub container_write : ℕ → ℕ → List Writer → Res (List ℕ)
container_write max_bytes kind children = do
  out ← write_words max_bytes (0 ∷ kind ∷ []) []
  out ← container_loop max_bytes children out
  ok (fix_size 0 out)

-- `mp4_box_ftyp_write`, which writes to the file
unfoldable pub ftyp_write : ℕ → Res (List ℕ)
ftyp_write max_bytes = do
  out ←
      write_words max_bytes
        (32 ∷ 0x66747970 ∷ 0x69736f6d ∷ 2 ∷ 0x69736f6d ∷ 0x69736f32 ∷ 0x6d703431 ∷ 0x61766331 ∷ [])
        []
  ok (fix_size 32 out)

-- The type of the handler and the name of each kind of track: "VideoHandler", "SoundHandler",
-- "TimedMetadata" and "Chapters"
abbrev pub handler_of : TrackType → Res (ℕ × List ℕ)
handler_of TrackType.video =
    ok (0x76696465, 86 ∷ 105 ∷ 100 ∷ 101 ∷ 111 ∷ 72 ∷ 97 ∷ 110 ∷ 100 ∷ 108 ∷ 101 ∷ 114 ∷ [])
handler_of TrackType.audio =
    ok (0x736f756e, 83 ∷ 111 ∷ 117 ∷ 110 ∷ 100 ∷ 72 ∷ 97 ∷ 110 ∷ 100 ∷ 108 ∷ 101 ∷ 114 ∷ [])
handler_of TrackType.metadata =
    ok (0x6d657461, 84 ∷ 105 ∷ 109 ∷ 101 ∷ 100 ∷ 77 ∷ 101 ∷ 116 ∷ 97 ∷ 100 ∷ 97 ∷ 116 ∷ 97 ∷ [])
handler_of TrackType.chapters = ok (0x74657874, 67 ∷ 104 ∷ 97 ∷ 112 ∷ 116 ∷ 101 ∷ 114 ∷ 115 ∷ [])
handler_of kind = err einval

-- The name of the track, or that of its kind where it has none of 1 to 254 bytes
unfoldable pub name_or : List ℕ → Option (List ℕ) → List ℕ
name_or default none = default
name_or default (some s) =
    let len = validate_str_len (some s) name_max in if len == 0 then default else take len s

-- `mp4_box_hdlr_write`, with the name of the track
unfoldable pub hdlr_write : ℕ → ℕ → Option (List ℕ) → MuxTrack → Res (List ℕ)
hdlr_write max_bytes kind name t = do
  (handler, default) ← handler_of t.kind
  write_box max_bytes (32 + (length (name_or default name) + 1)) kind (
      (be_32 0 ∷ zeroes 4 ∷ be_32 handler ∷ zeroes 12 ∷ [])
      ++ (name_or default name ∷ (0 ∷ []) ∷ []))

-- `mp4_box_dref_write`
unfoldable pub dref_write : ℕ → ℕ → Res (List ℕ)
dref_write max_bytes kind =
    write_box max_bytes 28 kind (be_32 0 ∷ be_32 1 ∷ be_32 12 ∷ be_32 0x75726c20 ∷ be_32 1 ∷ [])
