-- ===== src/Examples/Muxing.antt =====
-- The tables of the muxer, on a track of three samples, and its metadata.
use libmp.Mux.{TrackParams, MuxTrack, Mux, new_track, Storage}
use libmp.Mux.Metadata.{storage_of, same_text, add_metadata, codes}
use libmp.Carry.{IsMuxed, carried, build_track-compute_tts}
use libmp.Mux.Sample.Steps.{IsAligned, add_to_track-IsAligned, SameEntries, add_to_track_failed}
use libmp.Mux.Sample.{
  Io, add_to_track, ScatteredSample, write_sample, rolls_back, Written, grow_sync_for, is_video,
}
use libmp.Types.{TrackType}
use libmp.Mux.Tts.{compute_tts}
use libmp.Prelude.{arith, ◌∷◌, true, map, none, [], false, ◌+◌, refl, ◌≡◌, ◌^◌, pos, ok, ◌-◌}
use libmp.Mux.Grow.{grow_samples, grow_chunks, grow_sync, grow, grow_loop}
use libmp.Build.Times.{total_count, decode, total_time}
use libmp.Mux.Metadata.Lookup.{Stored, add_metadata-Stored}
use libmp.Track.{Track}
use libmp.Mux.Tts.Lost.{compute_tts_loses}
use libmp.Build.{build_track}
use libmp.Mux.Tts.RoundTrip.{compute_tts-decode}
use libmp.Examples.{read_track}

abbrev pub params : TrackParams
params = record {
  kind = TrackType.video;
  enabled = true;
  in_movie = true;
  in_preview = false;
  timescale = 1000;
  creation_time = 0;
  modification_time = 0;
}

abbrev pub muxed : MuxTrack
muxed = record (new_track params 1 128) {
  samples = record {
    entries =
        record { size = 5; decoding_time = 100; offset = 48 }
        ∷ record { size = 7; decoding_time = 110; offset = 53 }
        ∷ record { size = 9; decoding_time = 130; offset = 60 }
        ∷ [];
    capacity = 128;
  };
  chunks = record { entries = 48 ∷ 53 ∷ 60 ∷ []; capacity = 128 };
  sync = record { entries = 1 ∷ 3 ∷ []; capacity = 128 };
  last_dts = pos 130;
}

muxed-IsAligned : IsAligned muxed
muxed-IsAligned = record {
  offsets = refl;
  sample_room = omega arith;
  chunk_room = omega arith;
  sync_room = omega arith;
  syncs = (omega arith, omega arith, (omega arith, omega arith, tt));
}

pub muxed-IsMuxed : IsMuxed muxed 100 (110 ∷ 130 ∷ [])
muxed-IsMuxed = record {
  aligned = muxed-IsAligned;
  chunked = refl;
  ticks = omega arith;
  timed = refl;
  start = omega arith;
  climbs = (omega arith, omega arith, omega arith, (omega arith, omega arith, omega arith, tt));
  few = omega arith;
  fits = (omega arith, (omega arith, (omega arith, tt)));
}

build_track-compute_tts_example :
    (t' : MuxTrack) × (compute_tts (λ n. true) 90000 muxed ≡ ok t')
    × (u' : Track) × (build_track true true (carried t' read_track) ≡ ok u')
    × (u'.sample_offset ≡ (48 ∷ 53 ∷ 60 ∷ []))
    × (u'.sample_size ≡ (5 ∷ 7 ∷ 9 ∷ []))
    × (map (λ x. x + 100) u'.sample_decoding_time ≡ (100 ∷ 110 ∷ 130 ∷ []))
build_track-compute_tts_example =
    build_track-compute_tts muxed 100 (110 ∷ 130 ∷ []) muxed-IsMuxed (λ n. true) 90000 read_track
      (λ n. refl)

compute_tts-decode_example :
    (t' : MuxTrack) × (compute_tts (λ n. true) 90000 muxed ≡ ok t')
    × (decode t'.time_to_sample.entries 100 ≡ (100 ∷ 110 ∷ 130 ∷ []))
    × (total_count t'.time_to_sample.entries ≡ 3)
    × (total_time t'.time_to_sample.entries + 100 ≡ 130)
    × (t'.duration + 100 ≡ 130)
compute_tts-decode_example =
    compute_tts-decode (λ n. true) (λ n. refl) 1000 90000 (omega arith) 100 muxed (110 ∷ 130 ∷ [])
      refl refl (omega arith) muxed-IsMuxed.climbs (omega arith)

abbrev sparse : MuxTrack
sparse = record muxed {
  samples = record {
    entries =
        record { size = 5; decoding_time = 100; offset = 48 }
        ∷ record { size = 7; decoding_time = 100 + (2 ^ 32 - 1); offset = 53 }
        ∷ [];
    capacity = 128;
  };
}

compute_tts_loses_example :
    (t' : MuxTrack) × (compute_tts (λ n. true) 1000 sparse ≡ ok t')
    × (total_count t'.time_to_sample.entries ≡ 1)
compute_tts_loses_example = compute_tts_loses (λ n. true) sparse 100 (λ n. refl) refl (omega arith)

-- A write that stops short.
abbrev full_disk : Io
full_disk = record {
  iov_room = true;
  realloc = λ n. true;
  seek = none;
  written = Written.bytes 2;
  seek_back = true;
}

abbrev sample : ScatteredSample
sample = record { len = 3 ∷ 4 ∷ []; sync = true; dts = pos 140 }

add_to_track-IsAligned_example : IsAligned (add_to_track full_disk muxed sample 69).1
add_to_track-IsAligned_example =
    add_to_track-IsAligned muxed muxed-IsAligned (omega arith) full_disk sample 69

add_to_track_failed_example : SameEntries muxed (add_to_track full_disk muxed sample 69).1
unfolding add_to_track write_sample rolls_back grow_samples grow_chunks grow_sync_for grow_sync
    is_video grow grow_loop
add_to_track_failed_example = add_to_track_failed full_disk muxed sample 69 (λ e. cc)

abbrev pub mux : Mux
mux = record {
  position = 69;
  timescale = 90000;
  duration = 0;
  tracks = record muxed { kind = TrackType.audio; handle = 1 } ∷ record muxed { handle = 2 } ∷ [];
  track_count = 2;
  metadatas = [];
}

add_metadata-Stored_example :
    ((add_metadata (λ n. true) (codes "com.apple.quicktime.make") (1 ∷ []) []).0 ≡ ok tt)
    × Stored
        (codes "com.apple.quicktime.make")
        (1 ∷ [])
        []
        (add_metadata (λ n. true) (codes "com.apple.quicktime.make") (1 ∷ []) []).1
unfolding storage_of same_text
add_metadata-Stored_example =
    add_metadata-Stored (λ n. true) (codes "com.apple.quicktime.make") (1 ∷ []) [] Storage.meta
      (λ n. refl) refl
