-- ===== src/Examples/Tables.antt =====
-- The build of a track from its tables, and the conversions of times.
use libmp.Track.Valid.{IsValid, IsOrdered}
use libmp.Prelude.{
  ℕ, true, arith, ◌^◌, ◌≡◌, refl, ◌∷◌, ok, fault, [], err, ◌+◌, eoverflow, ◌-◌, ◌≤◌, ◌⊎◌, ◌<◌,
}
use libmp.Build.Sound.{
  IsConsistent, built, build_track-IsValid, build_track-built, build_track-overflow,
}
use libmp.Time.{usec_to_sample_time, sample_time_to_usec}
use libmp.Build.{build_track}
use libmp.Track.{Track}
use libmp.Examples.{read_track, read_track-IsConsistent}
use libmp.Mux.Grow.{grow, grow_size, grow_enough}
use libmp.Time.RoundTrip.{usec_to_sample_time-sample_time_to_usec}
use libmp.Build.Overrun.{build_track_overrun}

build_track-built_example : build_track true true read_track ≡ ok (built read_track)
build_track-built_example = build_track-built read_track read_track-IsConsistent (omega arith)

build_track-IsValid_example :
    (t' : Track) × (build_track true true read_track ≡ ok t') × IsValid t' × IsOrdered t'
build_track-IsValid_example =
    build_track-IsValid read_track read_track-IsConsistent (omega arith) (omega arith) (omega arith)

-- A track of three samples that last 2^63 ticks each.
abbrev slow_track : Track
slow_track = record read_track {
  time_to_sample_entries = record { sample_count = 3; sample_delta = 2 ^ 63 } ∷ [];
}

slow_track-IsConsistent : IsConsistent slow_track
slow_track-IsConsistent = record {
  room = record {
    sized = refl;
    based = refl;
    few = omega arith;
    fits = (omega arith, (omega arith, tt));
  };
  ordered = (omega arith, (omega arith, omega arith));
  planned = refl;
  counted = refl;
  nonempty = omega arith;
  small = omega arith;
}

build_track-overflow_example : build_track true true slow_track ≡ err eoverflow
build_track-overflow_example = build_track-overflow slow_track slow_track-IsConsistent (omega arith)

-- One sample, and chunks of 2^32 - 1 and of 2 samples, whose count wraps around to 1.
abbrev overrun_track : Track
overrun_track = record read_track {
  sample_count = 1;
  sample_size = 5 ∷ [];
  chunk_count = 2;
  sample_to_chunk_entries =
      record { first_chunk = 1; samples_per_chunk = 2 ^ 32 - 1; sample_description_index = 1 }
      ∷ record { first_chunk = 2; samples_per_chunk = 2; sample_description_index = 1 }
      ∷ [];
}

build_track_overrun_example : build_track true true overrun_track ≡ fault
build_track_overrun_example =
    build_track_overrun overrun_track refl refl (omega arith) 0
      (omega arith, (omega arith, omega arith)) (omega arith) (omega arith) refl

usec_to_sample_time-sample_time_to_usec_example :
    usec_to_sample_time (sample_time_to_usec 12345 90000) 90000 ≡ 12345
usec_to_sample_time-sample_time_to_usec_example =
    usec_to_sample_time-sample_time_to_usec 12345 90000 (omega arith) (omega arith) (omega arith)

grow_enough_example :
    (next : ℕ) × (grow (λ n. true) 200 128 1 ≡ ok next)
    × (200 + 1 ≤ next)
    × (128 ≤ next)
    × (next ≡ 128 ⊎ next < 200 + 1 + grow_size)
grow_enough_example = grow_enough (λ n. true) 200 128 1 (λ n. refl) (omega arith)
