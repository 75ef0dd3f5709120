-- ===== src/Mux.antt =====
-- src/mp4_mux.c: the muxer's state, its tracks and the references between them.
pub mod Grow
pub mod Tts
pub mod Sample
pub mod Sort
pub mod Metadata
use Prim.Native.Nat.{bit_or}
use libmp.Prelude.{
  ℕ, [], List, ◌∷◌, if◌then◌else◌, Option, Bool, add64, ◌==◌, true, ltb, none, false, ℤ, pos, some,
}
use libmp.Types.{TrackType, TimeToSampleEntry, SampleToChunkEntry, mac_to_unix_epoch_offset}

-- `enum mp4_mux_meta_storage`
pub data Storage : Type 0 where
  meta udta udta_root : Storage

-- `struct mp4_mux_metadata`; a C string is the list of its bytes without the final 0.
pub record MuxMetadata : Type 0 where
  pub key : List ℕ
  pub value : List ℕ
  pub storage : Storage

-- One index of the arrays `samples.sizes`, `samples.decoding_times` and `samples.offsets`.
pub record MuxSample : Type 0 where
  pub size : ℕ
  pub decoding_time : ℕ
  pub offset : ℕ

-- An array with its capacity; `count` is the length of the list.
pub record Table (A : Type 0) : Type 0 where
  pub entries : List A
  pub capacity : ℕ

abbrev pub empty_table : {A : Type 0} → Table A
empty_table = record { entries = []; capacity = 0 }

-- `struct mp4_mux_track`
pub record MuxTrack : Type 0 where
  pub handle : ℕ
  pub id : ℕ
  pub flags : ℕ
  pub reference_track_handle : List ℕ
  pub kind : TrackType
  pub timescale : ℕ
  pub duration : ℕ
  pub duration_moov : ℕ
  pub creation_time : ℕ
  pub modification_time : ℕ
  pub samples : Table MuxSample
  pub chunks : Table ℕ
  pub time_to_sample : Table TimeToSampleEntry
  pub sample_to_chunk : Table SampleToChunkEntry
  pub sync : Table ℕ
  pub track_info_written : Bool
  pub meta_write_count : ℕ
  pub metadatas : List MuxMetadata
  pub last_dts : ℤ

-- `struct mp4_mux`; `position` is the offset of `fd`.
pub record Mux : Type 0 where
  pub position : ℕ
  pub timescale : ℕ
  pub duration : ℕ
  pub tracks : List MuxTrack
  pub track_count : ℕ
  pub metadatas : List MuxMetadata

-- The first track with the handle.
unfoldable pub find_track : List MuxTrack → ℕ → Option MuxTrack
find_track [] h = none
find_track (t ∷ ts) h = if t.handle == h then some t else find_track ts h

-- `mp4_mux_track_find_by_handle`
unfoldable pub track_find_by_handle : Mux → ℕ → Option MuxTrack
unfolding find_track
track_find_by_handle m h = if ltb m.track_count h then none else find_track m.tracks h

-- A write through the pointer that the search returned.
unfoldable pub update_track : List MuxTrack → ℕ → MuxTrack → List MuxTrack
update_track [] h u = []
update_track (t ∷ ts) h u = if t.handle == h then u ∷ ts else t ∷ update_track ts h u

abbrev pub with_track : Mux → ℕ → MuxTrack → Mux
with_track m h u = record m { tracks = update_track m.tracks h u }

-- `struct mp4_mux_track_params`, less the name
pub record TrackParams : Type 0 where
  pub kind : TrackType
  pub enabled : Bool
  pub in_movie : Bool
  pub in_preview : Bool
  pub timescale : ℕ
  pub creation_time : ℕ
  pub modification_time : ℕ

-- The types that `mp4_mux_add_track` takes.
unfoldable pub is_muxable : TrackType → Bool
is_muxable TrackType.video = true
is_muxable TrackType.audio = true
is_muxable TrackType.metadata = true
is_muxable TrackType.chapters = true
is_muxable _ = false

unfoldable pub flags_of : TrackParams → ℕ
flags_of p =
    bit_or (bit_or (if p.enabled then 1 else 0) (if p.in_movie then 2 else 0))
      (if p.in_preview then 4 else 0)

abbrev pub new_track : TrackParams → ℕ → ℕ → MuxTrack
new_track p handle capacity = record {
  handle = handle;
  id = 0;
  flags = flags_of p;
  reference_track_handle = [];
  kind = p.kind;
  timescale = p.timescale;
  duration = 0;
  duration_moov = 0;
  creation_time = add64 p.creation_time mac_to_unix_epoch_offset;
  modification_time = add64 p.modification_time mac_to_unix_epoch_offset;
  samples = empty_table;
  chunks = empty_table;
  time_to_sample = empty_table;
  sample_to_chunk = record {
    entries = record { first_chunk = 1; samples_per_chunk = 1; sample_description_index = 1 } ∷ [];
    capacity = capacity;
  };
  sync = empty_table;
  track_info_written = false;
  meta_write_count = 0;
  metadatas = [];
  last_dts = pos 0;
}
