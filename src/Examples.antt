-- ===== src/Examples.antt =====
-- Concrete tracks and files on which the theorems are applied.
pub mod Tracks
pub mod Tables
pub mod Muxing
pub mod Files
pub mod Runs
pub mod Writing
pub mod Boxes
pub mod Bytes
pub mod Heads
pub mod Linking
pub mod Metadata
pub mod Whole
use libmp.Track.{Track}
use libmp.Track.Valid.{IsValid, IsOrdered}
use libmp.Build.Sound.{IsConsistent, built, built-IsValid}
use libmp.Track.Sync.{IsSyncTable}
use libmp.Prelude.{arith, ◌∷◌, refl, [], some, none, ℕ, ◌<◌, get_or, ◌^◌, suc, zero}
use libmp.Types.{TrackType}

-- A track as the reader leaves it: three samples in two chunks, at times 0, 10 and 20.
abbrev pub read_track : Track
read_track = record {
  addr = 1;
  id = 1;
  kind = TrackType.video;
  timescale = 1000;
  duration = 25;
  next_sample = 1;
  pending_seek_time = 0;
  sample_count = 3;
  sample_size = 5 ∷ 7 ∷ 9 ∷ [];
  sample_decoding_time = [];
  sample_offset = [];
  chunk_count = 2;
  chunk_offset = 100 ∷ 200 ∷ [];
  time_to_sample_entries =
      record { sample_count = 2; sample_delta = 10 }
      ∷ record { sample_count = 1; sample_delta = 5 }
      ∷ [];
  sample_to_chunk_entries =
      record { first_chunk = 1; samples_per_chunk = 2; sample_description_index = 1 }
      ∷ record { first_chunk = 2; samples_per_chunk = 1; sample_description_index = 1 }
      ∷ [];
  sync_sample_entry_count = 2;
  sync_sample_entries = some (1 ∷ 3 ∷ []);
  reference_type = 0;
  reference_track_id = [];
  metadata = none;
  chapters = none;
}

pub read_track-IsConsistent : IsConsistent read_track
read_track-IsConsistent = record {
  room = record {
    sized = refl;
    based = refl;
    few = omega arith;
    fits = (omega arith, (omega arith, tt));
  };
  ordered = (omega arith, (omega arith, omega arith));
  planned = refl;
  counted = refl;
  nonempty = omega arith;
  small = omega arith;
}

-- The track that the build leaves.
abbrev pub played : Track
played = built read_track

pub played_good : IsValid played × IsOrdered played
played_good =
    built-IsValid read_track read_track-IsConsistent (omega arith) (omega arith) (omega arith)

rising_ok :
    (i j : ℕ) → i < j → j < 2 → get_or {A = ℕ} (1 ∷ 3 ∷ []) i 0 < get_or {A = ℕ} (1 ∷ 3 ∷ []) j 0
rising_ok zero zero h₁ h₂ = absurd (omega arith)
rising_ok zero (suc zero) h₁ h₂ = omega arith
rising_ok zero (suc (suc j)) h₁ h₂ = absurd (omega arith)
rising_ok (suc i) j h₁ h₂ = absurd (omega arith)

small_ok :
    (i : ℕ)
    → i < 2
    → (0 < get_or {A = ℕ} (1 ∷ 3 ∷ []) i 0) × (get_or {A = ℕ} (1 ∷ 3 ∷ []) i 0 < 2 ^ 32)
small_ok zero h = (omega arith, omega arith)
small_ok (suc zero) h = (omega arith, omega arith)
small_ok (suc (suc i)) h = absurd (omega arith)

pub played-IsSyncTable : IsSyncTable 2 (1 ∷ 3 ∷ [])
played-IsSyncTable = record {
  held = omega arith;
  rising = rising_ok;
  positive = λ i h. (small_ok i h).0;
  small = λ i h. (small_ok i h).1;
}
