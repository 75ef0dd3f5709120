-- ===== src/Examples/Whole.antt =====
-- A track of three samples that is muxed, written, read and built.
use libmp.Mux.Tts.{compute_tts, tts_of, tts_loop, tts_step, record_diff, push_entry, bump_last}
use libmp.Mux.{MuxTrack}
use libmp.Examples.Muxing.{muxed, muxed-IsMuxed}
use libmp.Prelude.{◌∷◌, [], true, ◌≡◌, ok, refl, arith, List, ℕ, ◌++◌, some, length, ◌+◌, map}
use libmp.Mux.Grow.{grow_tts, grow, grow_loop}
use libmp.Bytes.{words, be_32}
use libmp.Carry.Stbl.{Storable}
use libmp.Time.{convert_timescale}
use libmp.Write.Tables.{is_co64}
use libmp.Write.Stbl.{stbl_write}
use libmp.Examples.Bytes.{stsd_box, front, back, one_track}
use libmp.Read.Tables.{RawTrack}
use libmp.Read.Children.Loop.{children_read}
use libmp.Carry.Passes.{plain_env, with_raw}
use libmp.Read.Handler.{BoxType}
use libmp.Read.Children.{fresh_track}
use libmp.Track.{Track}
use libmp.Build.{build_track}
use libmp.Carry.Played.{as_track, build_track-stbl_write}
use libmp.Examples.{read_track}

-- The track with its time-to-sample table
abbrev timed : MuxTrack
timed = record muxed {
  time_to_sample = record {
    entries =
        record { sample_count = 1; sample_delta = 10 }
        ∷ record { sample_count = 1; sample_delta = 20 }
        ∷ record { sample_count = 1; sample_delta = 0 }
        ∷ [];
    capacity = 128;
  };
  duration = 30;
  duration_moov = 2700;
}

timed_computed : compute_tts (λ n. true) 90000 muxed ≡ ok timed
unfolding compute_tts tts_of tts_loop tts_step record_diff push_entry bump_last grow_tts grow
    grow_loop convert_timescale
timed_computed = refl

timed-Storable : Storable timed
timed-Storable = record {
  any_times = omega arith;
  few_times = omega arith;
  small_times = (
    (omega arith, (omega arith, tt)),
    ((omega arith, (omega arith, tt)), ((omega arith, (omega arith, tt)), tt)),
  );
  any_syncs = omega arith;
  few_syncs = omega arith;
  small_syncs = (omega arith, (omega arith, tt));
  any_chunks = omega arith;
  few_chunks = omega arith;
  small_chunks = ((omega arith, (omega arith, (omega arith, tt))), tt);
  any_samples = omega arith;
  few_samples = omega arith;
  small_samples = (omega arith, (omega arith, (omega arith, tt)));
  any_offsets = omega arith;
  few_offsets = omega arith;
  small_offsets = (omega arith, (omega arith, (omega arith, tt)));
}

build_track-stbl_write_example :
    (bytes : List ℕ) × (stbl_write 200 (λ m. ok stsd_box) timed ≡ ok bytes)
    × (read : RawTrack) × (children_read 8
          (plain_env (front ++ (bytes ++ back)))
          (BoxType.minf ∷ [])
          (some 0)
          (length bytes)
          (with_raw one_track 0 fresh_track)
          3
          0
          true
        ≡ some (
            ok record {
              file = with_raw one_track 0 read;
              count = length bytes;
              offset = 3 + length bytes;
            }))
    × (u' : Track) × (build_track true true (as_track read read_track) ≡ ok u')
    × (u'.sample_offset ≡ (48 ∷ 53 ∷ 60 ∷ []))
    × (u'.sample_size ≡ (5 ∷ 7 ∷ 9 ∷ []))
    × (map (λ x. x + 100) u'.sample_decoding_time ≡ (100 ∷ 110 ∷ 130 ∷ []))
unfolding words be_32 is_co64
build_track-stbl_write_example =
    build_track-stbl_write muxed 100 (110 ∷ 130 ∷ []) muxed-IsMuxed (λ n. true) 90000 (λ n. refl)
      timed fresh_track read_track timed_computed one_track 0 (BoxType.minf ∷ []) stsd_box (0 ∷ [])
      200 timed-Storable
      record { times = refl; syncs = refl; chunks = refl; sizes = refl; offsets = refl }
      (omega arith) refl refl (omega arith) (omega arith) (omega arith) front back
