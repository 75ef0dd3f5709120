-- ===== src/Time.antt =====
-- include/libmp4.h: the conversions between microseconds and sample times, on uint64_t.
pub mod RoundTrip
use libmp.Prelude.{ℕ, if◌then◌else◌, Res, add64, ◌*◌, ◌==◌, ok, ◌%◌, fault, ◌^◌, ◌/◌}

-- `mp4_usec_to_sample_time`
unfoldable pub usec_to_sample_time : ℕ → ℕ → ℕ
usec_to_sample_time time timescale = add64 (time * timescale % 2 ^ 64) 500000 / 1000000

-- `mp4_sample_time_to_usec`
unfoldable pub sample_time_to_usec : ℕ → ℕ → ℕ
sample_time_to_usec time timescale =
    if timescale == 0 then 0 else add64 (time * 1000000 % 2 ^ 64) (timescale / 2) / timescale

-- `mp4_convert_timescale`; a division by zero is a fault.
unfoldable pub convert_timescale : ℕ → ℕ → ℕ → Res ℕ
convert_timescale time src dest =
    if src == dest
    then ok time
    else if src == 0
    then fault
    else ok (add64 (time * dest % 2 ^ 64) (src / 2) / src)
