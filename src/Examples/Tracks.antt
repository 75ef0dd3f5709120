-- ===== src/Examples/Tracks.antt =====
-- The searches, the seek and the reading of a sample, on a track of three samples.
use libmp.Demux.Reading.{IsLoaded, told, SyncAround}
use libmp.Track.Spec.{First, Last}
use libmp.Prelude.{
  Bool, Res, ℕ, Option, ◌<◌, true, refl, ◌≡◌, arith, ok, suc, replicate, pos, ◌∷◌, none, negsuc,
  some, [], fault, List, ◌++◌,
}
use libmp.Track.Closest.{distance, find_nearest-Closest}
use libmp.Track.Rounds.{Closest}
use libmp.Time.{usec_to_sample_time}
use libmp.Demux.Sample.{read_buffer, get_track_sample}
use libmp.Demux.{
  seek_track, seek_start, seek_guess, seek_from, seek_clamp, seek_up, seek_down, get_seek_sample,
  or_enoent, seek, first_guess,
}
use libmp.Demux.Seek.{Sought, seek_start-Sought}
use libmp.Track.Exact.{IsAt, find_exact-First}
use libmp.Track.Valid.{Searchable, first_index, last_index}
use libmp.Track.OneSided.{IsAfter, IsBefore, find_gt-First, find_lt-Last}
use libmp.Examples.{played, played_good, played-IsSyncTable}
use libmp.Track.{
  is_sync_sample, find_sample_by_time_gt, find_sample_by_time_nearest, find_sample_by_time_exact,
  find_sample_by_time_lt, read_at, is_sample_searchable, Track,
}
use libmp.Types.{TimeCmp, SeekMethod}
use libmp.Track.Sync.{SyncAnswer, is_sync_sample-SyncAnswer}
use libmp.Demux.ZeroDuration.{seek_zero_duration}
use libmp.File.{Mp4File, track_find_by_id, store_track}
use libmp.Demux.Partial.{Moved, Stopped, seek-Moved}
use libmp.Demux.Advance.{get_track_sample-told}

find_lt-Last_example :
    Last
      (IsBefore played played_good.0 15 TimeCmp.lt true)
      (suc (last_index played (negsuc 0)))
      (find_sample_by_time_lt played 15 TimeCmp.lt true (negsuc 0))
find_lt-Last_example = find_lt-Last played played_good.0 15 TimeCmp.lt true (negsuc 0)

find_gt-First_example :
    First
      (IsAfter played played_good.0 5 TimeCmp.gt true)
      (first_index played (pos 1))
      3
      (find_sample_by_time_gt played 5 TimeCmp.gt true (pos 1))
find_gt-First_example = find_gt-First played played_good.0 5 TimeCmp.gt true (pos 1)

find_exact-First_example :
    First
      (IsAt played played_good.0 20 true)
      (first_index played (pos 0))
      3
      (find_sample_by_time_exact played 20 true (pos 0))
find_exact-First_example = find_exact-First played played_good.0 20 true played_good.1 (pos 0)

find_nearest-Closest_example :
    Closest
      (Searchable played true)
      (distance played 14)
      (first_index played (pos 0))
      3
      (find_sample_by_time_nearest played 14 true (pos 0))
find_nearest-Closest_example =
    find_nearest-Closest played played_good.0 played_good.1 14 true (omega arith) (pos 0)

is_sync_sample-SyncAnswer_example :
    (r : Bool × Option ℕ) × (is_sync_sample played 1 ≡ ok r) × SyncAnswer 2 (1 ∷ 3 ∷ []) 1 r
is_sync_sample-SyncAnswer_example =
    is_sync_sample-SyncAnswer played (1 ∷ 3 ∷ []) 1 refl played-IsSyncTable

seek_start-Sought_example :
    (s : ℕ) × (first_guess played 12 ≡ ok (pos s))
    × (s < 3)
    × Sought played 12 s (seek_start played 12)
seek_start-Sought_example = seek_start-Sought played played_good.0 12 played_good.1 (omega arith)

played-IsLoaded : IsLoaded played
played-IsLoaded = record { valid = played_good.0; sized = refl; placed = refl }

abbrev played_file : Mp4File
played_file = record {
  tracks = played ∷ [];
  track_count = 1;
  timescale = 1000;
  duration = 25;
  creation_time = 0;
  modification_time = 0;
  chapters = [];
}

get_track_sample-told_example :
    (sync : Bool) × (prev next : Res ℕ) × (get_track_sample
        (λ offset size. ok (replicate size 0))
        played_file
        1
        true
        (some 100)
        none
      ≡ ok (
        told played 1 (0 ∷ 0 ∷ 0 ∷ 0 ∷ 0 ∷ 0 ∷ 0 ∷ []) sync prev next,
        record played_file {
          tracks =
              store_track (played ∷ []) (record played { pending_seek_time = 0; next_sample = 2 });
        },
      ))
    × SyncAround played 1 prev next
    × (is_sample_searchable played (pos 1) true ≡ ok sync)
unfolding read_buffer track_find_by_id
get_track_sample-told_example =
    get_track_sample-told (λ offset size. ok (replicate size 0)) played_file 1 played true
      (some 100) (0 ∷ 0 ∷ 0 ∷ 0 ∷ 0 ∷ 0 ∷ 0 ∷ []) refl refl played-IsLoaded (omega arith) refl

seek-Moved_example :
    (before moved after : List Track) × ((played ∷ []) ≡ before ++ after)
    × ((seek (played ∷ []) 12000 SeekMethod.next).1 ≡ moved ++ after)
    × Moved 12000 SeekMethod.next before moved
    × Stopped 12000 SeekMethod.next after (seek (played ∷ []) 12000 SeekMethod.next).0
seek-Moved_example = seek-Moved 12000 SeekMethod.next (played ∷ [])

seek_zero_duration_example :
    (seek (played ∷ record played { duration = 0 } ∷ []) 12000 SeekMethod.previous).0 ≡ fault
unfolding seek_track seek_start first_guess seek_guess seek_from seek_clamp seek_up seek_down
    read_at get_seek_sample or_enoent usec_to_sample_time
seek_zero_duration_example =
    seek_zero_duration (played ∷ []) [] (record played { duration = 0 }) 12000 SeekMethod.previous
      ((record played { next_sample = 1; pending_seek_time = 0 }, refl), tt) refl
