-- ===== src/Demux/Seek.antt =====
-- src/mp4_demux.c: the sample from which `mp4_demux_seek` sets out.
use libmp.Track.{Track}
use libmp.Demux.{seek_clamp, seek_start, seek_up, seek_down, seek_guess, seek_from, first_guess}
use libmp.Track.Valid.{IsValid, IsOrdered, time_at, read_at-in}
use libmp.Prelude.{
  ℕ, ◌<◌, Res, ◌≤◌, ◌^◌, ◌+◌, ◌≡◌, ok, int32, err, pos, arith, ◌⊎◌, inl, enoent, suc, if◌then◌else◌,
  sub32, ltb, leb, ◌-◌, true, Bool-cases, inr, zero, refl, ◌==◌, false, sub64, add64, ◌*◌, ◌%◌, ◌/◌,
}
use libmp.Track.Spec.{Last, Last-round}
use native.Mathlib.Decide.{dec_lt}
use mathlib.Core.Path.{subst}

-- The sample `i` that the two loops find from the guess `s`: every later sample is after the time,
-- unless `i` has the very time and is not before the guess. If `i` is behind the guess, every sample
-- before `i` is before the time. So `i` is the only such sample.
pub record IsSought (t : Track) (ts s i : ℕ) : Type 0 where
  pub in_range : i < t.sample_count
  pub not_after : time_at t i ≤ ts
  pub later :
      (j : ℕ)
      → i < j
      → j < t.sample_count
      → (ts < time_at t j) ⊎ ((time_at t i ≡ ts) × (time_at t j ≡ ts) × (s ≤ i))
  pub ahead : (j : ℕ) → j < i → s < i → time_at t j < ts

pub data Sought (t : Track) (ts s : ℕ) : Res ℕ → Type 0 where
  found : (i : ℕ) → IsSought t ts s i → Sought t ts s (ok i)
  missing : ((j : ℕ) → j < t.sample_count → ts < time_at t j) → Sought t ts s (err enoent)

seek_clamp_valid :
    (t : Track) (x : ℕ)
    → 0 < t.sample_count
    → t.sample_count < 2 ^ 31
    → x < 2 ^ 32
    → (s : ℕ) × (seek_clamp t (int32 x) ≡ pos s) × (s < t.sample_count)
unfolding seek_clamp
seek_clamp_valid t x h₁ h₂ h₃ =
    let s : ℕ =
      if ltb x (2 ^ 31) then (if leb t.sample_count x then t.sample_count - 1 else x) else 0 in
    (s, ground arith, ground arith)

module _ (t : Track) (v : IsValid t) (ts : ℕ) where
  seek_up_on :
      (k start : ℕ) (r : Res ℕ)
      → start + 1 < t.sample_count
      → time_at t start < ts
      → seek_up k t ts (start + 1) ≡ r
      → seek_up (suc k) t ts start ≡ r
  unfolding seek_up
  seek_up_on k start r h₁ h₂ e =
      let last : sub32 t.sample_count 1 ≡ t.sample_count - 1 = omega (arith, v.few) in
      let read = read_at-in t.sample_decoding_time start 0 (rw v.timed (omega arith)) in
      let p : ltb start (t.sample_count - 1) ≡ true = ground arith in
      let q : ltb (time_at t start) ts ≡ true = ground arith in rw (last, p, read, q) e

  passed :
      (start i : ℕ)
      → time_at t start < ts
      → ((j : ℕ) → start + 1 ≤ j → j < i → time_at t j < ts)
      → (j : ℕ) → start ≤ j
      → j < i
      → time_at t j < ts
  passed start i early before j p q = elim (dec_lt start j) [
    | yes c ↦ before j (omega arith) q
    | no c ↦ let same : start ≡ j = omega arith in subst (λ k. time_at t k < ts) same early
  ]

  seek_up_ok :
      (k start : ℕ)
      → start < t.sample_count
      → t.sample_count ≤ start + k + 1
      → (i : ℕ) × (seek_up k t ts start ≡ ok i)
        × (i < t.sample_count)
        × (start ≤ i)
        × ((j : ℕ) → start ≤ j → j < i → time_at t j < ts)
        × ((i + 1 ≡ t.sample_count) ⊎ (ts ≤ time_at t i))
  unfolding seek_up
  seek_up_ok zero start h₁ h₂ =
      (start, refl, h₁, omega arith, λ j p q. absurd (omega arith), inl (omega arith))
  seek_up_ok (suc k) start h₁ h₂ =
      let last : sub32 t.sample_count 1 ≡ t.sample_count - 1 = omega (arith, v.few) in
      let read = read_at-in t.sample_decoding_time start 0 (rw v.timed h₁) in
      elim (Bool-cases (ltb start (t.sample_count - 1))) [
        | inr p ↦ (
          start,
          rw (last, p) refl,
          h₁,
          omega arith,
          λ j p q. absurd (omega arith),
          inl (ground arith),
        )
        | inl p ↦ elim (Bool-cases (ltb (time_at t start) ts)) [
          | inr q ↦ (
            start,
            rw (last, p, read, q) refl,
            h₁,
            omega arith,
            λ j p q. absurd (omega arith),
            inr (ground arith),
          )
          | inl q ↦
              let in_range : start + 1 < t.sample_count = ground arith in
              let enough : t.sample_count ≤ start + 1 + k + 1 = omega arith in
              let early : time_at t start < ts = ground arith in
              let (i, e, a, b, before, stop) = seek_up_ok k (start + 1) in_range enough in
              (
                i,
                seek_up_on k start (ok i) in_range early e,
                a,
                omega arith,
                passed start i early before,
                stop,
              )
        ]
      ]

  seek_down-Last : (m : ℕ) → m ≤ t.sample_count → Last (λ j. time_at t j ≤ ts) m (seek_down m t ts)
  unfolding seek_down
  seek_down-Last zero h = Last.missing (λ j p. absurd (omega arith))
  seek_down-Last (suc m) h =
      let read = read_at-in t.sample_decoding_time m 0 (rw v.timed (omega arith)) in
      rw read (
        Last-round (leb (time_at t m) ts) true m (seek_down m t ts) (λ a b. ground arith)
          (λ p. (ground arith, refl)) (seek_down-Last m (omega arith)))

  seek_guess_ok : 0 < t.duration → (x : ℕ) × (x < 2 ^ 32) × (seek_guess t ts ≡ ok (int32 x))
  unfolding seek_guess
  seek_guess_ok h =
      let some_duration : (t.duration == 0) ≡ false = ground arith in
      (
        sub64 (add64 (t.sample_count * ts % 2 ^ 64) t.duration) 1 / t.duration % 2 ^ 32,
        omega arith,
        rw some_duration refl,
      )

  module _ (o : IsOrdered t) (s stop : ℕ) (in_range : stop < t.sample_count) (up : s ≤ stop)
      (before : (j : ℕ) → s ≤ j → j < stop → time_at t j < ts)
      (stopped : (stop + 1 ≡ t.sample_count) ⊎ (ts ≤ time_at t stop)) where
    -- Behind where the first loop stops, a sample not after the time has the time itself.
    behind :
        (j : ℕ)
        → stop < j
        → j < t.sample_count
        → (ts < time_at t j) ⊎ ((time_at t stop ≡ ts) × (time_at t j ≡ ts))
    behind j p q = elim stopped [
      | inl e ↦ absurd (omega arith)
      | inr e ↦
          let rise = o.rising stop j (omega arith) q in
          elim (dec_lt ts (time_at t j)) [
            | yes c ↦ inl c
            | no c ↦ inr (omega (arith, e, rise, c), omega (arith, e, rise, c))
          ]
    ]

    before-all : (j : ℕ) → j < stop → s < stop → time_at t j < ts
    before-all j p q = elim (dec_lt j s) [
      | no c ↦ before j (omega arith) p
      | yes c ↦ omega (arith, o.rising j s (omega arith) (omega arith), before s (omega arith) q)
    ]

    found-later :
        (i : ℕ)
        → i ≤ stop
        → ((k : ℕ) → i < k → k < suc stop → ¬ (time_at t k ≤ ts))
        → (j : ℕ) → i < j
        → j < t.sample_count
        → (ts < time_at t j) ⊎ ((time_at t i ≡ ts) × (time_at t j ≡ ts) × (s ≤ i))
    found-later i low after j p q = elim (dec_lt stop j) [
      | no c ↦ inl (let late = after j p (omega arith) in omega (arith, late))
      | yes c ↦ elim (behind j c q) [
        | inl late ↦ inl late
        | inr (a, b) ↦ elim (dec_lt i stop) [
          | yes d ↦ let late = after stop d (omega arith) in absurd (omega (arith, a, late))
          | no d ↦
              let same : stop ≡ i = omega arith in
              inr (subst (λ k. time_at t k ≡ ts) same a, b, omega arith)
        ]
      ]
    ]

    sought : (r : Res ℕ) → Last (λ j. time_at t j ≤ ts) (suc stop) r → Sought t ts s r
    sought r (Last.found i p q after) = Sought.found i record {
      in_range = omega arith;
      not_after = q;
      later = found-later i (omega arith) after;
      ahead = λ j a b. before-all j (omega arith) (omega arith);
    }
    sought r (Last.missing none') = Sought.missing (λ j p. elim (dec_lt stop j) [
      | no c ↦ let late = none' j (omega arith) in omega (arith, late)
      | yes c ↦ elim (behind j c p) [
        | inl late ↦ late
        | inr (a, b) ↦ let here = none' stop (omega arith) in absurd (omega (arith, a, here))
      ]
    ])

  -- For a valid track whose times do not fall and a duration that is not 0, the first guess is a
  -- sample `s` of the track, and the two loops of `mp4_demux_seek` end, read no time out of range,
  -- and find the last sample that is not after the time asked for. Only if several samples have
  -- that very time, it is the first of these where all of them are behind `s`, and otherwise the
  -- last of these up to `s`. The loops find none exactly when every sample is later.
  pub seek_start-Sought :
      IsOrdered t
      → 0 < t.duration
      → (s : ℕ) × (first_guess t ts ≡ ok (pos s))
        × (s < t.sample_count)
        × Sought t ts s (seek_start t ts)
  unfolding seek_start seek_from first_guess
  seek_start-Sought o h =
      let (x, small, g) = seek_guess_ok h in
      let (s, e, l) = seek_clamp_valid t x v.nonempty v.few small in
      let enough : t.sample_count ≤ s + t.sample_count + 1 = omega arith in
      let (i, e', l', up, before, stop) = seek_up_ok t.sample_count s l enough in
      (
        s,
        rw (g, e) refl,
        l,
        rw (g, e, e') (sought o s i l' up before stop _ (seek_down-Last (suc i) l')),
      )
