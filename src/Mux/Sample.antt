-- ===== src/Mux/Sample.antt =====
-- src/mp4_mux.c: adding a track, a reference and a sample. What the system answers is an argument.
pub mod Steps
use libmp.Prelude.{
  ℤ, Bool, List, ℕ, not, true, ◌++◌, false, pos, Option, Res, ◌∷◌, err, abs_diff, if◌then◌else◌,
  ◌%◌, sum, ◌&&◌, einval, ◌==◌, system, ◌^◌, leb, [], negsuc, leb_ℤ, ltb, ◌||◌, length, ◌+◌, enospc,
  enobufs, ◌-◌, ok, enomem, ◌>>◌, none, fault, guard, enoent, some, ◌>>=◌, add32,
}
use libmp.Mux.{
  MuxTrack, Mux, TrackParams, track_find_by_handle, is_muxable, with_track, new_track, MuxSample,
}
use libmp.Types.{TrackType}
use libmp.Mux.Grow.{grow_sync, grow_samples, grow_chunks, grow_stc}

-- `mp4_mux_add_track`: the answer is the new handle. `room` tells whether `calloc` gives a track.
unfoldable pub add_track : Bool → (ℕ → Bool) → Mux → TrackParams → Res (ℕ × Mux)
add_track room realloc m p = do
  guard (not (p.timescale == 0)) einval
  guard (is_muxable p.kind) einval
  guard room enomem
  capacity ← grow_stc realloc 0 0 1
  let handle = add32 m.track_count 1
  ok (
    handle,
    record m { tracks = m.tracks ++ (new_track p handle capacity ∷ []); track_count = handle },
  )

-- MP4_TRACK_REF_MAX
abbrev pub track_ref_max : ℕ
track_ref_max = 10

unfoldable pub contains : List ℕ → ℕ → Bool
contains [] h = false
contains (x ∷ xs) h = x == h || contains xs h

unfoldable pub add_ref : MuxTrack → ℕ → Res MuxTrack
unfolding contains
add_ref t ref =
    if leb track_ref_max (length t.reference_track_handle)
    then err enobufs
    else if contains t.reference_track_handle ref
    then ok t
    else ok (record t {
      reference_track_handle = t.reference_track_handle ++ (ref ∷ []);
      track_info_written = false;
    })

-- `mp4_mux_add_ref_to_track`
unfoldable pub add_ref_to_track : Mux → ℕ → ℕ → Res Mux
add_ref_to_track m handle ref =
    if handle == 0
    then err einval
    else if ref == 0
    then err einval
    else elim (track_find_by_handle m handle) [
      | none ↦ err enoent
      | some t ↦ add_ref t ref >>= λ t'. ok (with_track m handle t')
    ]

-- What `writev` answers.
pub data Written : Type 0 where
  failed : ℕ → Written
  bytes : ℕ → Written

-- The answers of the system while a sample is added: for the iovec, for `realloc`, for the `lseek`
-- before the write (an errno if it fails), for the write, and for the `lseek` back.
pub record Io : Type 0 where
  pub iov_room : Bool
  pub realloc : ℕ → Bool
  pub seek : Option ℕ
  pub written : Written
  pub seek_back : Bool

-- `struct mp4_mux_scattered_sample`, with the lengths of its buffers
pub record ScatteredSample : Type 0 where
  pub len : List ℕ
  pub sync : Bool
  pub dts : ℤ

-- MP4_DEFAULT_BUFFER_COUNT
abbrev pub default_buffer_count : ℕ
default_buffer_count = 16

-- `(uint64_t)x` of an int64_t
abbrev pub u64_of_int64 : ℤ → ℕ
u64_of_int64 (pos n) = n % 2 ^ 64
u64_of_int64 (negsuc n) = 2 ^ 64 - 1 - n % 2 ^ 64

-- The guard against going back in time: it does nothing while `last_dts` is 0.
unfoldable pub rolls_back : MuxTrack → ScatteredSample → Bool
rolls_back t s = not (abs_diff t.last_dts (pos 0) == 0) && leb_ℤ s.dts t.last_dts

unfoldable pub is_video : TrackType → Bool
is_video TrackType.video = true
is_video _ = false

-- The new capacity of `sync`, where the sample takes a place there.
unfoldable pub grow_sync_for : (ℕ → Bool) → MuxTrack → ScatteredSample → Res ℕ
grow_sync_for realloc t s =
    if s.sync && is_video t.kind
    then grow_sync realloc (length t.sync.entries) t.sync.capacity 1
    else ok t.sync.capacity

-- The track with its arrays grown.
abbrev pub grown : MuxTrack → ℕ → ℕ → ℕ → MuxTrack
grown t samples chunks sync = record t {
  samples = record t.samples { capacity = samples };
  chunks = record t.chunks { capacity = chunks };
  sync = record t.sync { capacity = sync };
}

-- What the code writes at index `count` of the three arrays. The size is kept as a uint32_t.
abbrev pub new_sample : ScatteredSample → ℕ → MuxSample
new_sample s offset = record {
  size = sum s.len % 2 ^ 32;
  decoding_time = u64_of_int64 s.dts;
  offset = offset;
}

-- The track after the sample was written at `offset`.
unfoldable pub stored : MuxTrack → ScatteredSample → ℕ → MuxTrack
stored t s offset = record t {
  samples = record t.samples { entries = t.samples.entries ++ (new_sample s offset ∷ []) };
  chunks = record t.chunks { entries = t.chunks.entries ++ (offset ∷ []) };
  sync = record t.sync {
    entries =
        if s.sync && is_video t.kind
        then t.sync.entries ++ ((length t.samples.entries + 1) ∷ [])
        else t.sync.entries;
  };
  last_dts = s.dts;
}

-- The write, from the position `offset`: the answer, the track and the position after it.
unfoldable pub write_sample : Io → MuxTrack → ScatteredSample → ℕ → Res (Unit {0}) × MuxTrack × ℕ
write_sample io t s offset = elim io.written [
  | Written.failed e ↦ (err (system e), t, offset)
  | Written.bytes n ↦
      if ltb n (sum s.len)
      then (err enospc, t, if io.seek_back then offset else offset + n)
      else (ok tt, stored t s offset, offset + n)
]

-- From the check of the time on. On each early return the arrays that were grown stay so.
unfoldable pub add_to_track : Io → MuxTrack → ScatteredSample → ℕ → Res (Unit {0}) × MuxTrack × ℕ
add_to_track io t s offset =
    if rolls_back t s
    then (err einval, t, offset)
    else elim (grow_samples io.realloc (length t.samples.entries) t.samples.capacity 1) [
      | fault ↦ (fault, t, offset)
      | err e ↦ (err e, t, offset)
      | ok samples ↦ elim (grow_chunks io.realloc (length t.chunks.entries) t.chunks.capacity 1) [
        | fault ↦ (fault, grown t samples t.chunks.capacity t.sync.capacity, offset)
        | err e ↦ (err e, grown t samples t.chunks.capacity t.sync.capacity, offset)
        | ok chunks ↦ elim io.seek [
          | some e ↦ (err (system e), grown t samples chunks t.sync.capacity, offset)
          | none ↦ elim (grow_sync_for io.realloc t s) [
            | fault ↦ (fault, grown t samples chunks t.sync.capacity, offset)
            | err e ↦ (err e, grown t samples chunks t.sync.capacity, offset)
            | ok sync ↦ write_sample io (grown t samples chunks sync) s offset
          ]
        ]
      ]
    ]

-- `mp4_mux_track_add_scattered_sample`
unfoldable pub add_scattered_sample : Io → Mux → ℕ → ScatteredSample → Res (Unit {0}) × Mux
add_scattered_sample io m handle s =
    if handle == 0
    then (err einval, m)
    else if length s.len == 0
    then (err einval, m)
    else if ltb default_buffer_count (length s.len) && not io.iov_room
    then (err enomem, m)
    else elim (track_find_by_handle m handle) [
      | none ↦ (err enoent, m)
      | some t ↦
          let r = add_to_track io t s m.position in
          (r.0, record (with_track m handle r.1) { position = r.2 })
    ]

-- `mp4_mux_track_add_sample`, for a sample of one buffer
unfoldable pub add_sample : Io → Mux → ℕ → ℕ → Bool → ℤ → Res (Unit {0}) × Mux
add_sample io m handle len sync dts =
    if handle == 0
    then (err einval, m)
    else if len == 0
    then (err einval, m)
    else add_scattered_sample io m handle (record { len = len ∷ []; sync = sync; dts = dts })
