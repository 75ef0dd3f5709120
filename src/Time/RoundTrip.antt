-- ===== src/Time/RoundTrip.antt =====
-- Sample times survive the way through microseconds.
use libmp.Prelude.{ℕ, ◌<◌, ◌≤◌, ◌*◌, ◌+◌, ◌^◌, ◌/◌, ◌≡◌, add64, ◌%◌, arith, ◌==◌, false}
use libmp.Time.{usec_to_sample_time, sample_time_to_usec}
use native.Mathlib.Decide.{dec_lt}
use native.Mathlib.Nat.{div-mul-le_self, lt-div-mul-add}

-- Rounding up at half a microsecond, then at half a tick. `p` is the product in between.
round_back :
    (time timescale p : ℕ)
    → timescale < 1000000
    → time * 1000000 + 1000000 < 2 ^ 64
    → p ≤ time * 1000000 + timescale / 2
    → time * 1000000 + timescale / 2 < p + timescale
    → (p % 2 ^ 64 + 500000) % 2 ^ 64 / 1000000 ≡ time
round_back time timescale p h₁ h₂ h₃ h₄ = omega arith

-- A sample time of a track with at least one and at most 10^6 ticks a second comes back from its
-- time in microseconds, as long as no product wraps.
pub usec_to_sample_time-sample_time_to_usec :
    (time timescale : ℕ)
    → 0 < timescale
    → timescale ≤ 1000000
    → time * 1000000 + 1000000 < 2 ^ 64
    → usec_to_sample_time (sample_time_to_usec time timescale) timescale ≡ time
unfolding usec_to_sample_time sample_time_to_usec
usec_to_sample_time-sample_time_to_usec time timescale h₁ h₂ h₃ =
    let n = time * 1000000 + timescale / 2 in
    let whole : add64 (time * 1000000 % 2 ^ 64) (timescale / 2) ≡ n = omega arith in
    let positive : (timescale == 0) ≡ false = ground arith in
    elim (dec_lt timescale 1000000) [
      | yes c ↦
          rw (positive, whole)
            (round_back time timescale (n / timescale * timescale) c h₃
              (div-mul-le_self n timescale) (lt-div-mul-add {a = n} h₁))
      | no c ↦ let e : timescale ≡ 1000000 = omega arith in rw e (omega arith)
    ]
