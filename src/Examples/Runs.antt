-- ===== src/Examples/Runs.antt =====
-- Runs of the demuxer and the muxer on small files.
use libmp.File.{
  Mp4File, track_find_by_id, build_all, build_one, track_find, store_track, count_track, link_all,
  link_one, link_found, link_chapters, same_kind, link_alone, is_null,
}
use libmp.Demux.Sample.{
  get_track_sample, sample_of, metadata_track, read_metadata, read_buffer, time_of_found,
  after_sample, get_metadata_sample_from_ref_track, time_before, time_after, closest_metadata,
  no_sample,
}
use libmp.Demux.{
  seek_to_track_prev_sample, seek_to_track_next_sample, get_track_prev_sample_time, next_sample_of,
  get_track_next_sample_time, seek, get_track_sample_time, get_track_prev_sample_time_before,
  seek_track, seek_start, get_track_next_sample_time_after, seek_from, seek_guess, or_enoent,
  seek_clamp, seek_up, seek_down, get_seek_sample, first_guess,
}
use libmp.Prelude.{
  ℕ, Res, none, ◌≡◌, some, List, ok, err, refl, ◌∷◌, enoent, replicate, [], ◌+◌, false, true,
}
use libmp.Demux.Info.{get_media_info, unix_time}
use libmp.File.Chapters.{tracks_build, build_chapters, build_start}
use libmp.Examples.{played, read_track}
use libmp.Time.{sample_time_to_usec, usec_to_sample_time, convert_timescale}
use libmp.Build.{
  build_track, count_samples, fill_offsets, fill_chunks, fill_chunk, sum_counts, fill_times,
  fill_entry,
}
use libmp.Types.{TrackType}
use libmp.Track.{
  read_at, find_sample_by_time, find_sample_by_time_lt, find_sample_by_time_gt, lt_loop, gt_loop,
  check_lt, check_gt, clamp_start, find_sample_by_time_nearest, nearest_loop, clamp_end,
  is_sample_searchable, nearest_step, is_sync_sample, llabs_diff, sync_loop,
}

abbrev pub no_bytes : ℕ → ℕ → Res (List ℕ)
no_bytes offset size = ok (replicate size 0)

abbrev raw_file : Mp4File
raw_file = record {
  tracks =
      record read_track { metadata = none }
      ∷ record read_track { addr = 2; id = 7; kind = TrackType.metadata; metadata = none }
      ∷ [];
  track_count = 2;
  timescale = 1000;
  duration = 25;
  creation_time = 0x7c25b080 + 5;
  modification_time = 3;
  chapters = [];
}

-- The file that the build leaves: the one video track and the one metadata track are linked.
abbrev linked_file : Mp4File
linked_file = record raw_file {
  tracks =
      record played { metadata = some 2 }
      ∷ record played { addr = 2; id = 7; kind = TrackType.metadata; metadata = none }
      ∷ [];
}

tracks_build_run : tracks_build no_bytes (λ k. (true, true)) (λ k. true) raw_file ≡ ok linked_file
unfolding tracks_build build_all build_one build_track count_samples fill_offsets fill_chunks
    fill_chunk sum_counts fill_times fill_entry read_at track_find store_track count_track link_all
    link_one link_found link_chapters same_kind link_alone is_null build_chapters build_start
    track_find_by_id
tracks_build_run = refl

-- Sample 1 of the video, with the metadata sample of the same time.
get_track_sample_run :
    get_track_sample no_bytes linked_file 1 true (some 100) (some 100)
    ≡ ok (
      record {
        size = 7;
        offset = 105;
        metadata_size = 7;
        silent = false;
        sync = false;
        dts = 10;
        next_dts = 20;
        prev_sync_dts = 0;
        next_sync_dts = 20;
        bytes = 0 ∷ 0 ∷ 0 ∷ 0 ∷ 0 ∷ 0 ∷ 0 ∷ [];
        metadata_bytes = 0 ∷ 0 ∷ 0 ∷ 0 ∷ 0 ∷ 0 ∷ 0 ∷ [];
      },
      record linked_file {
        tracks =
            record played { metadata = some 2; next_sample = 2 }
            ∷ record played { addr = 2; id = 7; kind = TrackType.metadata; metadata = none }
            ∷ [];
      },
    )
unfolding get_track_sample sample_of metadata_track read_metadata read_buffer time_of_found
    after_sample get_metadata_sample_from_ref_track time_before time_after closest_metadata
    no_sample track_find track_find_by_id store_track read_at convert_timescale or_enoent
    find_sample_by_time find_sample_by_time_nearest find_sample_by_time_lt find_sample_by_time_gt
    lt_loop gt_loop nearest_loop nearest_step llabs_diff check_lt check_gt clamp_start clamp_end
    is_sample_searchable is_sync_sample sync_loop
get_track_sample_run = refl

seek_next_run : seek_to_track_next_sample linked_file 1 false ≡ (
  ok tt,
  record linked_file {
    tracks =
        record played { metadata = some 2; next_sample = 2 }
        ∷ record played {
          addr = 2;
          id = 7;
          kind = TrackType.metadata;
          metadata = none;
          next_sample = 2;
        }
        ∷ [];
  },
)
unfolding seek_to_track_next_sample next_sample_of track_find_by_id seek seek_track seek_start
    first_guess seek_from seek_guess seek_clamp seek_up seek_down get_seek_sample or_enoent read_at
    usec_to_sample_time sample_time_to_usec
seek_next_run = refl

times_run :
    (get_track_prev_sample_time linked_file 1 ≡ err enoent)
    × (get_track_next_sample_time linked_file 1 ≡ ok 10000)
    × (get_track_prev_sample_time_before linked_file 1 15000 true ≡ ok 0)
    × (get_track_next_sample_time_after linked_file 1 5000 false ≡ ok 10000)
unfolding get_track_prev_sample_time get_track_next_sample_time get_track_sample_time
    get_track_prev_sample_time_before get_track_next_sample_time_after track_find_by_id read_at
    or_enoent find_sample_by_time find_sample_by_time_lt find_sample_by_time_gt lt_loop gt_loop
    check_lt check_gt clamp_start clamp_end is_sample_searchable is_sync_sample sync_loop
    usec_to_sample_time sample_time_to_usec
times_run = (refl, refl, refl, refl)

seek_prev_run : seek_to_track_prev_sample linked_file 1 ≡ (err enoent, linked_file)
unfolding seek_to_track_prev_sample track_find_by_id
seek_prev_run = refl

media_info_run :
    get_media_info linked_file
    ≡ record { duration = 25000; creation_time = 5; modification_time = 3; track_count = 2 }
unfolding get_media_info unix_time sample_time_to_usec
media_info_run = refl
