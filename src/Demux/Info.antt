-- ===== src/Demux/Info.antt =====
-- src/mp4_demux.c: the metadata of the file, its cover, and the times of the file.
use libmp.Prelude.{
  Option, List, ℕ, Bool, ◌∷◌, if◌then◌else◌, length, some, ltb, ◌+◌, Res, suc, ◌&&◌, ◌++◌, leb,
  ◌==◌, [], ◌-◌, none, ok, err, zero, ◌>>◌, guard, enobufs, enomem, ◌>>=◌, enodata,
}
use libmp.File.{Mp4File}
use libmp.Time.{sample_time_to_usec}
use libmp.Types.{mac_to_unix_epoch_offset}

abbrev pub name_max : ℕ
name_max = 255

abbrev pub metadata_value_max : ℕ
metadata_value_max = 65535

-- `strnlen` of a text, the bytes before the first that is zero
unfoldable pub strnlen : List ℕ → ℕ → ℕ
strnlen [] max = 0
strnlen (c ∷ cs) zero = 0
strnlen (c ∷ cs) (suc max) = let rest = strnlen cs max in if c == 0 then 0 else suc rest

-- `mp4_validate_str_len`; NULL is `none`.
unfoldable pub validate_str_len : Option (List ℕ) → ℕ → ℕ
validate_str_len none max = 0
validate_str_len (some s) max = let len = strnlen s max in if leb max len then 0 else len

-- A key and a value of the metadata tables
abbrev pub Entry : Type 0
Entry = Option (List ℕ) × Option (List ℕ)

-- The test that `mp4_metadata_build` makes on every entry.
unfoldable pub is_valid_entry : Entry → Bool
is_valid_entry e =
    ltb 0 (validate_str_len e.1 metadata_value_max) && ltb 0 (validate_str_len e.0 name_max)

unfoldable pub count_entries : List Entry → ℕ
count_entries [] = 0
count_entries (e ∷ es) = let n = count_entries es in if is_valid_entry e then suc n else n

-- A loop over a table, with the `k` entries written so far: the entries written, in order.
unfoldable pub copy_entries : List Entry → ℕ → ℕ → List Entry
copy_entries [] k count = []
copy_entries (e ∷ es) k count =
    let rest = copy_entries es k count in
    let next = copy_entries es (k + 1) count in
    if leb count k then [] else if is_valid_entry e then e ∷ next else rest

-- `struct mp4_file`, its metadata
pub record FileMetadata : Type 0 where
  pub meta : List Entry
  pub udta : List Entry
  pub location : Entry
  pub meta_cover : ℕ × ℕ × ℕ
  pub udta_cover : ℕ × ℕ × ℕ
  pub final : List Entry
  -- the size, the offset and the type
  pub final_cover : ℕ × ℕ × ℕ

unfoldable pub final_count : FileMetadata → ℕ
final_count f =
    count_entries f.meta + count_entries f.udta + (if is_valid_entry f.location then 1 else 0)

-- The three loops, the last for the location alone.
unfoldable pub final_entries : FileMetadata → List Entry
final_entries f =
    let count = final_count f in
    let a = copy_entries f.meta 0 count in
    let b = copy_entries f.udta (length a) count in
    let k = length a + length b in
    (a ++ b) ++ (if is_valid_entry f.location && ltb k count then f.location ∷ [] else [])

unfoldable pub final_cover_of : FileMetadata → ℕ × ℕ × ℕ
final_cover_of f =
    if ltb 0 f.meta_cover.0
    then f.meta_cover
    else if ltb 0 f.udta_cover.0
    then f.udta_cover
    else f.final_cover

-- `mp4_metadata_build`; the Booleans tell whether `calloc` gives the two arrays.
unfoldable pub metadata_build : Bool → Bool → FileMetadata → Res FileMetadata
metadata_build room₁ room₂ f =
    if final_count f == 0 then ok (record f { final_cover = final_cover_of f }) else do
      guard room₁ enomem
      guard room₂ enomem
      ok (record f { final = final_entries f; final_cover = final_cover_of f })

-- `mp4_demux_get_metadata_cover`: the size and the type written, and the bytes of the cover.
unfoldable pub get_metadata_cover :
    (ℕ → ℕ → Res (List ℕ)) → FileMetadata → Option ℕ → Res (ℕ × Option ℕ × List ℕ)
get_metadata_cover pread f buffer =
    let (size, offset, kind) = f.final_cover in
    if size == 0 then ok (0, none, []) else elim buffer [
      | none ↦ ok (size, some kind, [])
      | some room ↦ if ltb room size then err enobufs else do
        bytes ← pread offset size
        guard (length bytes == size) enodata
        ok (size, some kind, bytes)
    ]

-- The times of the Mac epoch that `mp4_demux_get_media_info` and `mp4_demux_get_track_info` give.
unfoldable pub unix_time : ℕ → ℕ
unix_time t = if leb mac_to_unix_epoch_offset t then t - mac_to_unix_epoch_offset else t

-- `struct mp4_media_info`
pub record MediaInfo : Type 0 where
  pub duration : ℕ
  pub creation_time : ℕ
  pub modification_time : ℕ
  pub track_count : ℕ

-- `mp4_demux_get_media_info`
unfoldable pub get_media_info : Mp4File → MediaInfo
get_media_info f = record {
  duration = sample_time_to_usec f.duration f.timescale;
  creation_time = unix_time f.creation_time;
  modification_time = unix_time f.modification_time;
  track_count = f.track_count;
}
