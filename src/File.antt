-- ===== src/File.antt =====
-- src/mp4_track.c: the tracks of a demuxed file, by address, position and id, the links between
-- them and the chapter list (`mp4_track_add` to `mp4_tracks_build`).
pub mod Limit
pub mod Kept
pub mod Links
pub mod Linked
pub mod Steps
pub mod Referred
pub mod Rounds
pub mod OneTrack
pub mod Registry
pub mod Chapters
use libmp.Prelude.{
  ℕ, Option, Bool, List, ◌∷◌, Res, true, some, [], none, ok, false, if◌then◌else◌, ◌++◌, fault, err,
  add32, enoent, ◌>>=◌, ◌==◌, ◌+◌, ◌&&◌, sub32, not,
}
use libmp.Track.{Track}
use libmp.Types.{TrackType}
use libmp.Build.{build_track}

-- `struct mp4_file`, as far as the tracks and the times go; `list_walk_entry_forward` is the list.
pub record Mp4File : Type 0 where
  pub tracks : List Track
  pub track_count : ℕ
  pub timescale : ℕ
  pub duration : ℕ
  pub creation_time : ℕ
  pub modification_time : ℕ
  -- `chaptersTime` and `chaptersName`, up to `chaptersCount`
  pub chapters : List (ℕ × List ℕ)

-- `calloc` in `mp4_track_new`: every member is zero, and the kind 0 is MP4_TRACK_TYPE_UNKNOWN.
pub track_new : ℕ → Track
track_new addr = record {
  addr = addr;
  id = 0;
  kind = TrackType.unknown;
  timescale = 0;
  duration = 0;
  next_sample = 0;
  pending_seek_time = 0;
  sample_count = 0;
  sample_size = [];
  sample_decoding_time = [];
  sample_offset = [];
  chunk_count = 0;
  chunk_offset = [];
  time_to_sample_entries = [];
  sample_to_chunk_entries = [];
  sync_sample_entry_count = 0;
  sync_sample_entries = none;
  reference_type = 0;
  reference_track_id = [];
  metadata = none;
  chapters = none;
}

-- `mp4_track_add`; the argument is the address that `calloc` gives, or nothing for NULL.
pub track_add : Option ℕ → Mp4File → Option Track × Mp4File
track_add none f = (none, f)
track_add (some addr) f = (
  some (track_new addr),
  record f { tracks = f.tracks ++ (track_new addr ∷ []); track_count = add32 f.track_count 1 },
)

-- The walk of `mp4_track_find`: the track at an address.
unfoldable pub track_find : List Track → ℕ → Option Track
track_find [] addr = none
track_find (t ∷ ts) addr = if t.addr == addr then some t else track_find ts addr

-- `list_del`
pub list_del : List Track → ℕ → List Track
list_del [] addr = []
list_del (t ∷ ts) addr = if t.addr == addr then ts else t ∷ list_del ts addr

-- `mp4_track_remove`
pub track_remove : Mp4File → ℕ → Res (Unit {0}) × Mp4File
track_remove f addr = elim (track_find f.tracks addr) [
  | none ↦ (err enoent, f)
  | some t ↦
      (ok tt, record f { tracks = list_del f.tracks addr; track_count = sub32 f.track_count 1 })
]

-- The walk of `mp4_track_find_by_idx`, from number `k` on.
pub track_find_by_idx : List Track → ℕ → ℕ → Option Track
track_find_by_idx [] k idx = none
track_find_by_idx (t ∷ ts) k idx = if k == idx then some t else track_find_by_idx ts (k + 1) idx

-- The walk of `mp4_track_find_by_id`
unfoldable pub track_find_by_id : List Track → ℕ → Option Track
track_find_by_id [] id = none
track_find_by_id (t ∷ ts) id = if t.id == id then some t else track_find_by_id ts id

-- A write through a `struct mp4_track *`.
unfoldable pub store_track : List Track → Track → List Track
store_track [] t = []
store_track (u ∷ us) t = if u.addr == t.addr then t ∷ us else u ∷ store_track us t

unfoldable pub same_kind : TrackType → TrackType → Bool
same_kind TrackType.unknown TrackType.unknown = true
same_kind TrackType.video TrackType.video = true
same_kind TrackType.audio TrackType.audio = true
same_kind TrackType.hint TrackType.hint = true
same_kind TrackType.metadata TrackType.metadata = true
same_kind TrackType.text TrackType.text = true
same_kind TrackType.chapters TrackType.chapters = true
same_kind _ _ = false

-- `MP4_REFERENCE_TYPE_DESCRIPTION` ("cdsc") and `MP4_REFERENCE_TYPE_CHAPTERS` ("chap")
abbrev pub reference_type_description : ℕ
reference_type_description = 0x63647363

abbrev pub reference_type_chapters : ℕ
reference_type_chapters = 0x63686170

-- The variables of `mp4_tracks_build` that live across its rounds; pointers are addresses.
pub record Build : Type 0 where
  pub tracks : List Track
  pub video_tk : Option ℕ
  pub meta_tk : Option ℕ
  pub chap_tk : Option ℕ
  pub video_track_count : ℕ
  pub audio_track_count : ℕ
  pub hint_track_count : ℕ
  pub metadata_track_count : ℕ

-- The `switch` on the type of a track.
unfoldable pub count_track : Track → Build → Build
count_track t b = elim t.kind [
  | TrackType.video ↦ record b {
    video_track_count = b.video_track_count + 1;
    video_tk = some t.addr;
  }
  | TrackType.audio ↦ record b { audio_track_count = b.audio_track_count + 1 }
  | TrackType.hint ↦ record b { hint_track_count = b.hint_track_count + 1 }
  | TrackType.metadata ↦ record b {
    metadata_track_count = b.metadata_track_count + 1;
    meta_tk = some t.addr;
  }
  | _ ↦ b
]

-- `tk->chapters = tkRef; tkRef->type = MP4_TRACK_TYPE_CHAPTERS;`, which may be one track.
unfoldable pub link_chapters : Track → Track → List Track → List Track
link_chapters t r ts =
    if t.addr == r.addr
    then store_track ts (record t { chapters = some r.addr; kind = TrackType.chapters })
    else store_track (store_track ts (record t { chapters = some r.addr }))
        (record r { kind = TrackType.chapters })

-- One round of the loop over the track references, for the track at `addr`. Both tracks are read
-- where they stand, since an earlier round may have changed them.
unfoldable pub link_found : Track → Track → Build → Build
link_found t r b =
    if t.reference_type == reference_type_description && same_kind t.kind TrackType.metadata
    then record b { tracks = store_track b.tracks (record r { metadata = some t.addr }) }
    else if t.reference_type == reference_type_chapters && same_kind r.kind TrackType.text
    then record b { tracks = link_chapters t r b.tracks; chap_tk = some r.addr }
    else b

unfoldable pub link_one : ℕ → ℕ → Build → Build
link_one addr id b = elim (track_find b.tracks addr) [
  | none ↦ b
  | some t ↦ elim (track_find_by_id b.tracks id) [ none ↦ b | some r ↦ link_found t r b ]
]

unfoldable pub link_all : ℕ → List ℕ → Build → Build
link_all addr [] b = b
link_all addr (id ∷ ids) b = link_all addr ids (link_one addr id b)

-- One round of `mp4_tracks_build`, for the track at `addr`; the Booleans tell what `malloc` gives.
unfoldable pub build_one : Bool × Bool → ℕ → Build → Res Build
build_one rooms addr b = elim (track_find b.tracks addr) [
  | none ↦ fault
  | some t ↦ build_track rooms.0 rooms.1 t >>= λ t'. ok (
      link_all addr t'.reference_track_id
        (count_track t' (record b { tracks = store_track b.tracks t' })))
]

unfoldable pub build_all : (ℕ → Bool × Bool) → ℕ → List ℕ → Build → Res Build
build_all rooms k [] b = ok b
build_all rooms k (a ∷ rest) b = build_one (rooms k) a b >>= λ b'. build_all rooms (k + 1) rest b'

-- `!p` of a pointer
unfoldable pub is_null : Option ℕ → Bool
is_null none = true
is_null (some p) = false

-- The workaround for one video track and one metadata track without a reference.
unfoldable pub link_alone : Build → Build
link_alone b = elim b.video_tk [
  | none ↦ b
  | some v ↦ elim b.meta_tk [
    | none ↦ b
    | some m ↦ elim (track_find b.tracks v) [
      | none ↦ b
      | some t ↦
          if b.video_track_count == 1
            && (b.metadata_track_count == 1
                && (b.audio_track_count == 0 && (b.hint_track_count == 0 && is_null t.metadata)))
          then record b { tracks = store_track b.tracks (record t { metadata = some m }) }
          else b
    ]
  ]
]
