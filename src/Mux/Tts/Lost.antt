-- ===== src/Mux/Tts/Lost.antt =====
-- A first step of UINT32_MAX ticks is taken for the difference that the loop starts with.
use libmp.Mux.Tts.{compute_tts, tts_loop, tts_step, record_diff, bump_last, tts_start}
use libmp.Time.{convert_timescale}
use libmp.Prelude.{
  ℕ, Bool, ◌≡◌, true, map, ◌∷◌, ◌+◌, ◌^◌, ◌-◌, [], ◌<◌, ok, arith, sub64, ◌%◌, ◌==◌, refl,
}
use libmp.Mux.{MuxTrack}
use libmp.Build.Times.{total_count}
use libmp.Mux.Tts.RoundTrip.{tts_of-ok}
use libmp.Mux.Tts.Recorded.{push_entry_total}
use libmp.Mux.Tts.Covers.{one}

lost :
    (realloc : ℕ → Bool) (t : MuxTrack) (first : ℕ)
    → first + (2 ^ 32 - 1) < 2 ^ 64
    → tts_loop realloc t.timescale t.timescale
        ((first + (2 ^ 32 - 1)) ∷ [])
        (tts_start realloc t first)
      ≡ ok (record {
        table = record { entries = []; capacity = t.time_to_sample.capacity };
        duration = 2 ^ 32 - 1;
        duration_moov = 2 ^ 32 - 1;
        prev_diff = 2 ^ 32 - 1;
        prev_dts = first + (2 ^ 32 - 1);
      })
unfolding tts_loop tts_step record_diff bump_last convert_timescale
lost realloc t first h =
    let diff : sub64 (first + (2 ^ 32 - 1)) first % 2 ^ 32 ≡ 2 ^ 32 - 1 = omega arith in
    let same : (t.timescale == t.timescale) ≡ true = ground arith in rw (same, diff)

-- For a track of two samples that are UINT32_MAX ticks apart, whose timescale is the muxer's, the
-- function succeeds with memory to be had, and the table that it computes counts one sample.
pub compute_tts_loses :
    (realloc : ℕ → Bool) (t : MuxTrack) (first : ℕ)
    → ((n : ℕ) → realloc n ≡ true)
    → map (λ s. s.decoding_time) t.samples.entries ≡ first ∷ (first + (2 ^ 32 - 1)) ∷ []
    → first + (2 ^ 32 - 1) < 2 ^ 64
    → (t' : MuxTrack) × (compute_tts realloc t.timescale t ≡ ok t')
      × (total_count t'.time_to_sample.entries ≡ 1)
unfolding compute_tts
compute_tts_loses realloc t first room e h =
    let (capacity, f) =
      push_entry_total realloc room (record { entries = []; capacity = t.time_to_sample.capacity })
        0 (omega arith) in
    (
      record t {
        time_to_sample = record { entries = one 0 ∷ []; capacity = capacity };
        duration = 2 ^ 32 - 1;
        duration_moov = 2 ^ 32 - 1;
      },
      rw e (tts_of-ok realloc room t.timescale first _ t _ _ (lost realloc t first h) f),
      refl,
    )
