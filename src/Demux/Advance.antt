-- ===== src/Demux/Advance.antt =====
-- src/mp4_demux.c: `mp4_demux_get_track_sample` as a whole, what it tells and what it leaves.
use libmp.Demux.Sample.{get_track_sample, metadata_track, after_sample, no_sample, read_buffer}
use libmp.Prelude.{
  List, ℕ, Res, ◌≡◌, none, Bool, ok, Option, refl, some, ◌≤◌, ◌<◌, leb, true, get_or, arith,
  if◌then◌else◌, ◌+◌, pos, false,
}
use libmp.Track.{Track, is_sample_searchable}
use libmp.File.{Mp4File, track_find_by_id, store_track}
use libmp.Demux.Reading.{IsLoaded, told, SyncAround, sample_of-told}
use libmp.Track.Valid.{time_at}

no_metadata : (ts : List Track) (t : Track) → t.metadata ≡ none → metadata_track ts t ≡ ok none
unfolding metadata_track
no_metadata ts t e = rw (e, metadata_track) refl

-- For a track of the file without a metadata track, whose arrays have an entry for each sample, with
-- a next sample to read, and a buffer of the caller that can be filled with it, the call succeeds. It
-- tells the size, the offset and the time of that sample, the time of the one behind it (0 at the
-- end), whether it is a sync sample, and the times of the last sync sample before its time and of
-- the first one after it (0 if there is none); the sample is silent if its time is before the
-- pending one. It leaves the file as it was but for that track, where a pending time that has come
-- is cleared, and the next sample is the one behind exactly if the caller asks to advance.
pub get_track_sample-told :
    (pread : ℕ → ℕ → Res (List ℕ)) (f : Mp4File) (id : ℕ) (t : Track) (advance : Bool)
    (buffer : Option ℕ) (bytes : List ℕ)
    → track_find_by_id f.tracks id ≡ some t
    → t.metadata ≡ none
    → IsLoaded t
    → t.next_sample < t.sample_count
    → read_buffer pread true buffer
        (get_or t.sample_offset t.next_sample 0)
        (get_or t.sample_size t.next_sample 0)
      ≡ ok bytes
    → (sync : Bool) × (prev next : Res ℕ) × (get_track_sample pread f id advance buffer none
        ≡ ok (
          told t t.next_sample bytes sync prev next,
          record f {
            tracks = store_track f.tracks (record t {
              pending_seek_time =
                  if leb t.pending_seek_time (time_at t t.next_sample)
                  then 0
                  else t.pending_seek_time;
              next_sample = if advance then t.next_sample + 1 else t.next_sample;
            });
          },
        ))
      × SyncAround t t.next_sample prev next
      × (is_sample_searchable t (pos t.next_sample) true ≡ ok sync)
unfolding get_track_sample after_sample
get_track_sample-told pread f id t advance buffer bytes found alone l h b =
    let more : leb t.sample_count t.next_sample ≡ false = ground arith in
    let (sync, prev, next, e, around, searchable) = sample_of-told t l pread buffer bytes h b in
    (
      sync,
      prev,
      next,
      rw (found, get_track_sample, more, no_metadata f.tracks t alone, e) refl,
      around,
      searchable,
    )

-- At the end of the track the sample is all zeros, and nothing changes.
pub get_track_sample_end :
    (pread : ℕ → ℕ → Res (List ℕ)) (f : Mp4File) (id : ℕ) (t : Track) (advance : Bool)
    (sample_buffer metadata_buffer : Option ℕ)
    → track_find_by_id f.tracks id ≡ some t
    → t.sample_count ≤ t.next_sample
    → get_track_sample pread f id advance sample_buffer metadata_buffer ≡ ok (no_sample, f)
unfolding get_track_sample
get_track_sample_end pread f id t advance sample_buffer metadata_buffer found h =
    let over : leb t.sample_count t.next_sample ≡ true = ground arith in
    rw (found, get_track_sample, over) refl
