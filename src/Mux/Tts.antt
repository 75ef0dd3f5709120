-- ===== src/Mux/Tts.antt =====
-- src/mp4_mux.c, `mp4_mux_track_compute_tts`: the time-to-sample table of a track's decoding times.
pub mod Covers
pub mod Recorded
pub mod RoundTrip
pub mod Lost
use libmp.Prelude.{
  ℕ, List, Bool, Res, ◌∷◌, add32, [], map, sub64, ok, if◌then◌else◌, ◌==◌, ◌%◌, ◌>>=◌, length, ◌^◌,
  ◌++◌, ◌-◌, add64,
}
use libmp.Mux.{Table, MuxTrack}
use libmp.Types.{TimeToSampleEntry}
use libmp.Mux.Grow.{grow_tts}
use libmp.Time.{convert_timescale}

-- The variables of the loop, with the track's fields that it writes.
pub record Tts : Type 0 where
  pub table : Table TimeToSampleEntry
  pub duration : ℕ
  pub duration_moov : ℕ
  pub prev_diff : ℕ
  pub prev_dts : ℕ

-- `if (count > 0) entries[count - 1].sampleCount++;`
unfoldable pub bump_last : List TimeToSampleEntry → List TimeToSampleEntry
bump_last [] = []
bump_last (e ∷ []) = record e { sample_count = add32 e.sample_count 1 } ∷ []
bump_last (e ∷ e' ∷ es) = e ∷ bump_last (e' ∷ es)

module _ (realloc : ℕ → Bool) where
  -- A new entry of one sample, `delta` long.
  unfoldable pub push_entry : Table TimeToSampleEntry → ℕ → Res (Table TimeToSampleEntry)
  push_entry table delta = grow_tts realloc (length table.entries) table.capacity 1 >>= λ capacity.
      ok (record {
        entries = table.entries ++ (record { sample_count = 1; sample_delta = delta } ∷ []);
        capacity = capacity;
      })

  unfoldable pub record_diff : Tts → ℕ → Res (Table TimeToSampleEntry)
  record_diff s diff =
      if diff == s.prev_diff
      then ok (record s.table { entries = bump_last s.table.entries })
      else push_entry s.table diff

  module _ (src dest : ℕ) where
    -- One round of the loop, at the next decoding time. `diff` is a uint32_t.
    unfoldable pub tts_step : Tts → ℕ → Res Tts
    tts_step s next =
        let diff = sub64 next s.prev_dts % 2 ^ 32 in
        convert_timescale diff src dest >>= λ moov. record_diff s diff >>= λ table. ok (record {
          table = table;
          duration = add64 s.duration diff;
          duration_moov = add64 s.duration_moov moov;
          prev_diff = diff;
          prev_dts = next;
        })

    unfoldable pub tts_loop : List ℕ → Tts → Res Tts
    tts_loop [] s = ok s
    tts_loop (next ∷ rest) s = tts_step s next >>= λ s'. tts_loop rest s'

  -- The loop's variables at its start, for a first decoding time.
  abbrev pub tts_start : MuxTrack → ℕ → Tts
  tts_start t first = record {
    table = record { entries = []; capacity = t.time_to_sample.capacity };
    duration = 0;
    duration_moov = 0;
    prev_diff = 2 ^ 32 - 1;
    prev_dts = first;
  }

  -- The function's body, over the decoding times. What a call that fails leaves in the table is
  -- written anew by the next call, and is not kept here.
  unfoldable pub tts_of : ℕ → MuxTrack → List ℕ → Res MuxTrack
  tts_of dest t [] = ok (record t {
    time_to_sample = record t.time_to_sample { entries = [] };
    duration = 0;
    duration_moov = 0;
  })
  tts_of dest t (first ∷ rest) = tts_loop t.timescale dest rest (tts_start t first) >>= λ s.
      push_entry s.table 0 >>= λ table.
      ok (record t {
        time_to_sample = table;
        duration = s.duration;
        duration_moov = s.duration_moov;
      })

  -- `mp4_mux_track_compute_tts` for a muxer of the timescale `dest`
  unfoldable pub compute_tts : ℕ → MuxTrack → Res MuxTrack
  unfolding tts_of
  compute_tts dest t = tts_of dest t (map (λ s. s.decoding_time) t.samples.entries)
