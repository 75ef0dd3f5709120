-- ===== src/Read/Handler.antt =====
-- src/mp4_box_reader.c: `mp4_box_hdlr_read`, and the types of the boxes (src/mp4_priv.h).
use libmp.Prelude.{
  Bool, ℕ, List, ◌∷◌, Option, Res, if◌then◌else◌, [], ◌==◌, ◌>>◌, ok, some, none, suc, ◌>>=◌, ltb,
  false, true, ◌++◌, zero,
}
use libmp.Types.{TrackType}
use libmp.Read.Tables.{RawTrack}
use libmp.Read.{Cursor, check_size, read_32, read_each, read_be, skip_rest}

-- The types that the reader tells apart, under the names that they spell; `item` is MP4_DATA_BOX and
-- `location` is MP4_LOCATION_BOX.
pub data BoxType : Type 0 where
  root ftyp moov udta mvhd trak tkhd tref mdia mdhd hdlr minf vmhd smhd hmhd nmhd dinf : BoxType
  stbl stsd stts stss stsz stsc stco co64 meta keys ilst item location uuid other : BoxType

abbrev pub known_types : List (ℕ × BoxType)
known_types =
    (0x66747970, ftyp)
    ∷ (0x6d6f6f76, moov)
    ∷ (0x75647461, udta)
    ∷ (0x6d766864, mvhd)
    ∷ (0x7472616b, trak)
    ∷ (0x746b6864, tkhd)
    ∷ (0x74726566, tref)
    ∷ (0x6d646961, mdia)
    ∷ (0x6d646864, mdhd)
    ∷ (0x68646c72, hdlr)
    ∷ (0x6d696e66, minf)
    ∷ (0x766d6864, vmhd)
    ∷ (0x736d6864, smhd)
    ∷ (0x686d6864, hmhd)
    ∷ (0x6e6d6864, nmhd)
    ∷ (0x64696e66, dinf)
    ∷ (0x7374626c, stbl)
    ∷ (0x73747364, stsd)
    ∷ (0x73747473, stts)
    ∷ (0x73747373, stss)
    ∷ (0x7374737a, stsz)
    ∷ (0x73747363, stsc)
    ∷ (0x7374636f, stco)
    ∷ (0x636f3634, co64)
    ∷ (0x6d657461, meta)
    ∷ (0x6b657973, keys)
    ∷ (0x696c7374, ilst)
    ∷ (0x64617461, item)
    ∷ (0xa978797a, location)
    ∷ (0x75756964, uuid)
    ∷ []

abbrev pub type_in : List (ℕ × BoxType) → ℕ → BoxType
type_in [] n = other
type_in ((m, t) ∷ ts) n = if m == n then t else type_in ts n

-- The type that a word spells
unfoldable pub box_type : ℕ → BoxType
box_type n = type_in known_types n

abbrev pub handler_types : List (ℕ × TrackType)
handler_types =
    (0x76696465, TrackType.video)
    ∷ (0x736f756e, TrackType.audio)
    ∷ (0x68696e74, TrackType.hint)
    ∷ (0x6d657461, TrackType.metadata)
    ∷ (0x74657874, TrackType.text)
    ∷ []

abbrev pub handler_in : List (ℕ × TrackType) → ℕ → TrackType
handler_in [] n = TrackType.unknown
handler_in ((m, t) ∷ ts) n = if m == n then t else handler_in ts n

-- The loop over the bytes of the name, `k` at most, up to the end of the box or a byte 0
unfoldable pub name_loop : (ℕ → ℕ → Res (List ℕ)) → ℕ → ℕ → List ℕ → Cursor → Res (List ℕ × Cursor)
name_loop pread zero max_bytes name c = ok (name, c)
name_loop pread (suc k) max_bytes name c = elim (ltb c.count max_bytes) [
  | false ↦ ok (name, c)
  | true ↦ read_be 1 pread c >>= λ r. elim (r.0 == 0) [
    | true ↦ ok (name, r.1)
    | false ↦ name_loop pread k max_bytes (name ++ (r.0 ∷ [])) r.1
  ]
]

-- The kind and the name of a track whose handler box is read
unfoldable pub set_handler : Bool → BoxType → ℕ → List ℕ → Option RawTrack → Option RawTrack
set_handler room mdia handler name (some t) =
    some
      record t { kind = handler_in handler_types handler; name = if room then some name else none }
set_handler room parent handler name track = track

-- `mp4_box_hdlr_read`: the track, if there is one, changes only under `mdia`. `room` says that
-- `strdup` succeeds.
unfoldable pub hdlr_read :
    (ℕ → ℕ → Res (List ℕ))
    → Bool
    → BoxType
    → ℕ
    → Option RawTrack
    → Cursor
    → Res (Option RawTrack × Cursor)
hdlr_read pread room parent max_bytes track c = do
  check_size max_bytes 24
  (head, c) ← read_32 pread c
  (pre_defined, c) ← read_32 pread c
  (handler, c) ← read_32 pread c
  (reserved, c) ← read_each (read_32 pread) 3 c
  (name, c) ← name_loop pread 99 max_bytes [] c
  ok (set_handler room parent handler name track, skip_rest max_bytes c)
