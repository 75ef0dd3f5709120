-- ===== src/Track/Exact.antt =====
-- `mp4_track_find_sample_by_time` with MP4_TIME_CMP_EXACT.
use libmp.Track.{Track, exact_loop, find_sample_by_time_exact}
use libmp.Track.Valid.{
  IsValid, time_at, IsOrdered, Searchable, first_index, clamp_start-valid, rounds-valid,
  first_index-lt, searchable_total, read_at-in,
}
use libmp.Prelude.{
  ℕ, Bool, ◌≡◌, ℤ, ◌+◌, pos, arith, suc, Bool-cases, ◌==◌, inl, true, ==_iff, ok_eq, inr, ltb,
  tests, ltb→lt, zero, refl,
}
use libmp.Track.Spec.{First, First-end, First-round, First-skip}

module _ (t : Track) (v : IsValid t) (time : ℕ) (sync : Bool) where
  abbrev pub IsAt : ℕ → Type 0
  IsAt i = (time_at t i ≡ time) × Searchable t sync i

  -- The early exit is right where the decoding times do not fall.
  exact_loop-First :
      IsOrdered t
      → (k i : ℕ) → i + k ≡ t.sample_count
      → First IsAt i t.sample_count (exact_loop k t time sync (pos i))
  unfolding exact_loop
  exact_loop-First o zero i h = First-end i _ (omega arith)
  exact_loop-First o (suc k) i h =
      let (s, f) = searchable_total t (pos i) sync v.synced in
      let next = exact_loop-First o k (i + 1) (omega arith) in
      rw (read_at-in t.sample_decoding_time i 0 (omega arith), f)
        (elim (Bool-cases (time_at t i == time)) [
          | inl e ↦ rw e (
              First-round true s i _ _ (omega arith) (λ _ q. ((==_iff _ _).0 e, rw (f, q)))
                (λ p. (refl, ok_eq (rw f at p.1))) next)
          | inr e ↦ rw e (elim (Bool-cases (ltb time (time_at t i))) [
            | inl l ↦ rw l (
                First.missing
                  (λ j h₁ h₂ p. absurd (omega (tests, p.0, o.rising i j h₁ h₂, ltb→lt _ _ l))))
            | inr l ↦ rw l (First-skip i _ _ (λ p. cc (e, (==_iff _ _).1 p.0)) next)
          ])
        ])

  -- With a valid track whose decoding times do not fall, the exact search from `start` on returns
  -- the first sample that counts and whose decoding time is `time`, where a negative `start` is the
  -- first sample and one past the end is the last sample. If there is none it answers ENOENT. Every
  -- index that it reads is in range.
  pub find_exact-First :
      IsOrdered t
      → (start : ℤ)
      → First IsAt
          (first_index t start)
          t.sample_count
          (find_sample_by_time_exact t time sync start)
  unfolding find_sample_by_time_exact
  find_exact-First o start = rw (clamp_start-valid t start v) (
      rw (rounds-valid t (first_index t start) v (first_index-lt t start v))
        (exact_loop-First o _ (first_index t start) (omega (arith, first_index-lt t start v))))
