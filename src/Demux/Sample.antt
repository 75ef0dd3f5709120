-- ===== src/Demux/Sample.antt =====
-- src/mp4_demux.c: the metadata sample that goes with a sample, and reading the next sample of a track.
-- `lseek` followed by `read` is the parameter `pread`, as for the chapters.
use libmp.Prelude.{
  Option, false, ℕ, List, Res, [], Bool, if◌then◌else◌, err, none, ◌>>=◌, ok, leb, enoent, ◌==◌,
  ◌^◌, ltb_ℤ, some, ◌-◌, fault, ltb, ◌+◌, pos, true, suc, enobufs, int32, sub32, ◌&&◌, ◌>>◌, zero,
  guard, not, ◌||◌, length, enodata,
}
use libmp.Track.{Track, read_at, llabs_diff, find_sample_by_time, is_sync_sample}
use libmp.File.{Mp4File, track_find_by_id, track_find, store_track}
use libmp.Time.{convert_timescale}
use libmp.Demux.{or_enoent}
use libmp.Types.{TimeCmp}

-- The time of the sample next to `ref_sample`, or INT64_MAX at an end of the track.
unfoldable pub time_before : Track → ℕ → Res ℕ
time_before t zero = ok (2 ^ 63 - 1)
time_before t (suc i) = read_at t.sample_decoding_time i

unfoldable pub time_after : Track → ℕ → Res ℕ
time_after t i =
    if ltb_ℤ (pos (i + 1)) (int32 t.sample_count)
    then read_at t.sample_decoding_time (i + 1)
    else ok (2 ^ 63 - 1)

-- The end of the function: the metadata sample `idx`, at time `meta_time`, is given if it has the
-- time of the sample or is closer to it than to the samples beside it.
unfoldable pub closest_metadata : ℕ → ℕ → ℕ → ℕ → ℕ → Res ℕ
closest_metadata idx meta_time time prev next = if meta_time == time then ok idx else do
  delta ← llabs_diff meta_time time
  prev_delta ← llabs_diff meta_time prev
  next_delta ← llabs_diff meta_time next
  if ltb delta prev_delta && ltb delta next_delta then ok idx else err enoent

-- `get_metadata_sample_from_ref_track`, where the first argument is the track `ref_tk->metadata`
unfoldable pub get_metadata_sample_from_ref_track : Option Track → Track → ℕ → Res ℕ
get_metadata_sample_from_ref_track none t i = err enoent
get_metadata_sample_from_ref_track (some m) t i = do
  time ← read_at t.sample_decoding_time i
  prev ← time_before t i
  next ← time_after t i
  wanted ← convert_timescale time t.timescale m.timescale
  idx ← or_enoent (find_sample_by_time m wanted TimeCmp.nearest false (pos 0))
  found ← read_at m.sample_decoding_time idx
  meta_time ← convert_timescale found m.timescale t.timescale
  closest_metadata idx meta_time time prev next

-- `struct mp4_track_sample`, with what is left in the two buffers
pub record TrackSample : Type 0 where
  pub size : ℕ
  pub offset : ℕ
  pub metadata_size : ℕ
  pub silent : Bool
  pub sync : Bool
  pub dts : ℕ
  pub next_dts : ℕ
  pub prev_sync_dts : ℕ
  pub next_sync_dts : ℕ
  pub bytes : List ℕ
  pub metadata_bytes : List ℕ

-- `memset(track_sample, 0, sizeof(*track_sample))`
unfoldable pub no_sample : TrackSample
no_sample = record {
  size = 0;
  offset = 0;
  metadata_size = 0;
  silent = false;
  sync = false;
  dts = 0;
  next_dts = 0;
  prev_sync_dts = 0;
  next_sync_dts = 0;
  bytes = [];
  metadata_bytes = [];
}

-- What is read into a buffer of the caller; the buffer is its size, or nothing for NULL.
unfoldable pub read_buffer : (ℕ → ℕ → Res (List ℕ)) → Bool → Option ℕ → ℕ → ℕ → Res (List ℕ)
read_buffer pread whole none offset size = ok []
read_buffer pread whole (some room) offset size =
    if ltb room size
    then err enobufs
    else if size == 0
    then ok []
    else do bytes ← pread offset size; guard (not whole || length bytes == size) enodata; ok bytes

-- The metadata sample of a track: its size and what was read. One that is not found is no error,
-- and a short read of it is not noticed.
unfoldable pub read_metadata :
    (ℕ → ℕ → Res (List ℕ)) → Option Track → Option ℕ → Res ℕ → Res (ℕ × List ℕ)
read_metadata pread none buffer idx = ok (0, [])
read_metadata pread (some m) buffer fault = fault
read_metadata pread (some m) buffer (err e) = ok (0, [])
read_metadata pread (some m) buffer (ok i) = do
  size ← read_at m.sample_size i
  offset ← read_at m.sample_offset i
  bytes ← read_buffer pread false buffer offset size
  ok (size, bytes)

-- `if (idx >= 0) ... = tk->sampleDecodingTime[idx];`, over a zero
unfoldable pub time_of_found : Track → Res ℕ → Res ℕ
time_of_found t (ok i) = read_at t.sample_decoding_time i
time_of_found t (err e) = ok 0
time_of_found t fault = fault

-- The sample at `next_sample`, which is in range.
unfoldable pub sample_of :
    (ℕ → ℕ → Res (List ℕ)) → Option Track → Track → Option ℕ → Option ℕ → Res TrackSample
sample_of pread m t sample_buffer metadata_buffer = do
  let i = t.next_sample
  size ← read_at t.sample_size i
  offset ← read_at t.sample_offset i
  bytes ← read_buffer pread true sample_buffer offset size
  time ← read_at t.sample_decoding_time i
  meta ← read_metadata pread m metadata_buffer (get_metadata_sample_from_ref_track m t i)
  next ← (if ltb i (sub32 t.sample_count 1) then read_at t.sample_decoding_time (i + 1) else ok 0)
  prev_sync ← time_of_found t (find_sample_by_time t time TimeCmp.lt true (int32 i))
  next_sync ← time_of_found t (find_sample_by_time t time TimeCmp.gt true (int32 i))
  sync ← is_sync_sample t i
  ok record {
    size = size;
    offset = offset;
    metadata_size = meta.0;
    silent = not (t.pending_seek_time == 0) && ltb time t.pending_seek_time;
    sync = sync.0;
    dts = time;
    next_dts = next;
    prev_sync_dts = prev_sync;
    next_sync_dts = next_sync;
    bytes = bytes;
    metadata_bytes = meta.1;
  }

-- What reading a sample does to its track.
unfoldable pub after_sample : Track → TrackSample → Bool → Track
after_sample t s advance = record t {
  pending_seek_time = if leb t.pending_seek_time s.dts then 0 else t.pending_seek_time;
  next_sample = if advance then t.next_sample + 1 else t.next_sample;
}

-- `tk->metadata`, which points to a track of the file
unfoldable pub metadata_track : List Track → Track → Res (Option Track)
metadata_track ts t = elim t.metadata [
  | none ↦ ok none
  | some addr ↦ elim (track_find ts addr) [ none ↦ fault | some m ↦ ok (some m) ]
]

-- `mp4_demux_get_track_sample`; an error leaves the track as it was, and at the end of the track the
-- sample is all zeros.
unfoldable pub get_track_sample :
    (ℕ → ℕ → Res (List ℕ)) → Mp4File → ℕ → Bool → Option ℕ → Option ℕ → Res (TrackSample × Mp4File)
get_track_sample pread f id advance sample_buffer metadata_buffer =
    elim (track_find_by_id f.tracks id) [
      | none ↦ err enoent
      | some t ↦ if leb t.sample_count t.next_sample then ok (no_sample, f) else do
        m ← metadata_track f.tracks t
        s ← sample_of pread m t sample_buffer metadata_buffer
        ok (s, record f { tracks = store_track f.tracks (after_sample t s advance) })
    ]
