-- ===== src/Demux.antt =====
-- src/mp4_demux.c: seeking in the tracks of a file, and the times and samples that a caller asks for.
pub mod Sample
pub mod Partial
pub mod Advance
pub mod ZeroDuration
pub mod Reading
pub mod SeekSync
pub mod Seek
pub mod Entries
pub mod Info
use libmp.Prelude.{
  Res, ℕ, List, ◌>>=◌, err, ℤ, Bool, ok, enoent, ◌∷◌, Option, negsuc, if◌then◌else◌, suc, none,
  fault, ◌==◌, pos, true, ◌+◌, some, [], false, ltb_ℤ, leb, u32_of_int, einval, ◌-◌, sub32, zero,
  int32, ltb, sub64, ◌^◌, add64, ◌*◌, ◌%◌, ◌/◌,
}
use libmp.File.{Mp4File, track_find_by_id}
use libmp.Track.{Track, read_at, is_sync_sample, find_sample_by_time}
use libmp.Types.{SeekMethod, TimeCmp}
use libmp.Time.{usec_to_sample_time, sample_time_to_usec}

-- `(int)x - 1` and so on stay in range here, since an index of a sample is below 2^31; a write of
-- the index to `nextSample` is one to an unsigned int.

-- `mp4_track_find_sample_by_time(...) >= 0 ? it : -ENOENT`
unfoldable pub or_enoent : Res ℕ → Res ℕ
or_enoent (ok i) = ok i
or_enoent (err e) = err enoent
or_enoent fault = fault

-- The case MP4_SEEK_METHOD_NEXT_SYNC of `get_seek_sample`
get_next_sync : Track → ℕ → Res ℕ
unfolding or_enoent
get_next_sync t start = read_at t.sample_decoding_time start >>= λ start_ts.
    or_enoent (find_sample_by_time t start_ts TimeCmp.gt true (pos start))

-- The case MP4_SEEK_METHOD_PREVIOUS_SYNC, from the answer of `mp4_track_is_sync_sample`. An index
-- that is written to `prev_sync` is an int, and is used if it is not negative.
pub get_previous_sync : Track → ℕ → Bool × Option ℕ → Res ℕ
unfolding get_next_sync
get_previous_sync t start (true, prev) = ok start
get_previous_sync t start (false, none) = get_next_sync t start
get_previous_sync t start (false, some p) = if ltb p (2 ^ 31) then ok p else get_next_sync t start

-- `get_seek_sample` with a `start` that is not negative
unfoldable pub get_seek_sample : Track → ℕ → ℕ → SeekMethod → Res ℕ
unfolding or_enoent get_next_sync get_previous_sync
get_seek_sample t start ts SeekMethod.previous =
    read_at t.sample_decoding_time start >>= λ start_ts. ok start
get_seek_sample t start ts SeekMethod.previous_sync =
    read_at t.sample_decoding_time start >>= λ start_ts.
    is_sync_sample t start >>= λ r. get_previous_sync t start r
get_seek_sample t start ts SeekMethod.nearest = read_at t.sample_decoding_time start >>= λ start_ts.
    or_enoent (find_sample_by_time t ts TimeCmp.nearest false (pos start))
get_seek_sample t start ts SeekMethod.nearest_sync =
    read_at t.sample_decoding_time start >>= λ start_ts.
    or_enoent (find_sample_by_time t ts TimeCmp.nearest true (pos start))
get_seek_sample t start ts SeekMethod.next = read_at t.sample_decoding_time start >>= λ start_ts.
    or_enoent (find_sample_by_time t start_ts TimeCmp.gt false (pos start))
get_seek_sample t start ts SeekMethod.next_sync = get_next_sync t start
get_seek_sample t start ts SeekMethod.other =
    read_at t.sample_decoding_time start >>= λ start_ts. err einval

-- The first guess of `mp4_demux_seek`, in proportion to the time: a division by zero is a fault. The
-- quotient is cut to an unsigned int and then to an int.
unfoldable pub seek_guess : Track → ℕ → Res ℤ
seek_guess t ts =
    if t.duration == 0
    then fault
    else ok
        (int32 (sub64 (add64 (t.sample_count * ts % 2 ^ 64) t.duration) 1 / t.duration % 2 ^ 32))

-- `if (start < 0) start = 0; if ((unsigned)start >= sampleCount) start = sampleCount - 1;`
unfoldable pub seek_clamp : Track → ℤ → ℤ
seek_clamp t start =
    let s : ℤ = if ltb_ℤ start (pos 0) then pos 0 else start in
    if leb t.sample_count (u32_of_int s) then int32 (sub32 t.sample_count 1) else s

-- `while (start < sampleCount - 1 && sampleDecodingTime[start] < ts) start++;`, `k` rounds at most
unfoldable pub seek_up : ℕ → Track → ℕ → ℕ → Res ℕ
seek_up zero t ts start = ok start
seek_up (suc k) t ts start =
    let rest = seek_up k t ts (start + 1) in
    if ltb start (sub32 t.sample_count 1)
    then (read_at t.sample_decoding_time start >>= λ dt. if ltb dt ts then rest else ok start)
    else ok start

-- `for (i = start; i >= 0; i--)` up to the first sample that is not after `ts`: `i`, if there is one,
-- where the argument is `i + 1`.
unfoldable pub seek_down : ℕ → Track → ℕ → Res ℕ
seek_down zero t ts = err enoent
seek_down (suc i) t ts = read_at t.sample_decoding_time i >>= λ dt.
    let rest = seek_down i t ts in if leb dt ts then ok i else rest

-- The first guess of `mp4_demux_seek`, clamped
unfoldable pub first_guess : Track → ℕ → Res ℤ
first_guess t ts = seek_guess t ts >>= λ guess. ok (seek_clamp t guess)

-- The two loops of the body, for a `start` that is clamped. A track without samples has `start` -1
-- here and no round of the second loop; `(unsigned)start` is then not below `sampleCount - 1`.
unfoldable pub seek_from : Track → ℕ → ℤ → Res ℕ
seek_from t ts (negsuc _) = err enoent
seek_from t ts (pos start) = seek_up t.sample_count t ts start >>= λ i. seek_down (suc i) t ts

-- The sample `i` from which a seek to `ts` goes on.
unfoldable pub seek_start : Track → ℕ → Res ℕ
unfolding seek_from
seek_start t ts = first_guess t ts >>= seek_from t ts

-- What the body of the loop over the tracks does to one track.
unfoldable pub seek_track : Track → ℕ → SeekMethod → Res Track
seek_track t time method =
    let ts = usec_to_sample_time time t.timescale in
    seek_start t ts >>= λ i. or_enoent (get_seek_sample t i ts method) >>= λ idx.
    read_at t.sample_decoding_time i >>= λ dt.
    ok (record t { next_sample = idx; pending_seek_time = if idx == i then 0 else dt })

-- `mp4_demux_seek`: the tracks before one that cannot be seeked have been moved.
unfoldable pub seek : List Track → ℕ → SeekMethod → Res (Unit {0}) × List Track
seek [] time method = (ok tt, [])
seek (t ∷ ts) time method =
    let rest = seek ts time method in
    elim (seek_track t time method) [
      | ok t' ↦ (rest.0, t' ∷ rest.1)
      | err e ↦ (err e, t ∷ ts)
      | fault ↦ (fault, t ∷ ts)
    ]

-- `mp4_demux_seek_to_track_prev_sample`
unfoldable pub seek_to_track_prev_sample : Mp4File → ℕ → Res (Unit {0}) × Mp4File
seek_to_track_prev_sample f id = elim (track_find_by_id f.tracks id) [
  | none ↦ (err enoent, f)
  | some t ↦
      if t.next_sample == 1
      then (err enoent, f)
      else elim (read_at t.sample_decoding_time
          (if leb 2 t.next_sample then t.next_sample - 2 else 0)) [
            | ok dt ↦
                let r =
                  seek f.tracks (sample_time_to_usec dt t.timescale) SeekMethod.previous_sync in
                (r.0, record f { tracks = r.1 })
            | err e ↦ (err e, f)
            | fault ↦ (fault, f)
          ]
]

-- The sample that `mp4_demux_seek_to_track_next_sample` seeks.
unfoldable pub next_sample_of : Track → Bool → Res ℕ
next_sample_of t true = if leb t.sample_count t.next_sample then err enoent else ok t.next_sample
next_sample_of t false =
    if leb (sub32 t.sample_count 1) t.next_sample then err enoent else ok (t.next_sample + 1)

-- `mp4_demux_seek_to_track_next_sample`
unfoldable pub seek_to_track_next_sample : Mp4File → ℕ → Bool → Res (Unit {0}) × Mp4File
seek_to_track_next_sample f id resync = elim (track_find_by_id f.tracks id) [
  | none ↦ (err enoent, f)
  | some t ↦ elim (next_sample_of t resync >>= λ i. read_at t.sample_decoding_time i) [
    | ok dt ↦
        let method = if resync then SeekMethod.previous_sync else SeekMethod.previous in
        let r = seek f.tracks (sample_time_to_usec dt t.timescale) method in
        (r.0, record f { tracks = r.1 })
    | err e ↦ (err e, f)
    | fault ↦ (fault, f)
  ]
]

-- `mp4_demux_get_track_prev_sample_time`; on an error `*sample_time` is 0.
unfoldable pub get_track_prev_sample_time : Mp4File → ℕ → Res ℕ
get_track_prev_sample_time f id = elim (track_find_by_id f.tracks id) [
  | none ↦ err enoent
  | some t ↦
      if leb 2 t.next_sample
      then (read_at t.sample_decoding_time (t.next_sample - 2) >>= λ dt.
          ok (sample_time_to_usec dt t.timescale))
      else err enoent
]

-- `mp4_demux_get_track_next_sample_time`
unfoldable pub get_track_next_sample_time : Mp4File → ℕ → Res ℕ
get_track_next_sample_time f id = elim (track_find_by_id f.tracks id) [
  | none ↦ err enoent
  | some t ↦
      if ltb t.next_sample t.sample_count
      then (read_at t.sample_decoding_time t.next_sample >>= λ dt.
          ok (sample_time_to_usec dt t.timescale))
      else err enoent
]

-- `mp4_demux_get_track_sample_time`
unfoldable pub get_track_sample_time : Mp4File → ℕ → ℕ → Bool → TimeCmp → Res ℕ
get_track_sample_time f id time sync cmp = elim (track_find_by_id f.tracks id) [
  | none ↦ err enoent
  | some t ↦
      let ts = usec_to_sample_time time t.timescale in
      or_enoent (find_sample_by_time t ts cmp sync (negsuc 0)) >>= λ i.
      read_at t.sample_decoding_time i >>= λ dt. ok (sample_time_to_usec dt t.timescale)
]

-- `mp4_demux_get_track_prev_sample_time_before`
unfoldable pub get_track_prev_sample_time_before : Mp4File → ℕ → ℕ → Bool → Res ℕ
get_track_prev_sample_time_before f id time sync = get_track_sample_time f id time sync TimeCmp.lt

-- `mp4_demux_get_track_next_sample_time_after`
unfoldable pub get_track_next_sample_time_after : Mp4File → ℕ → ℕ → Bool → Res ℕ
get_track_next_sample_time_after f id time sync = get_track_sample_time f id time sync TimeCmp.gt
