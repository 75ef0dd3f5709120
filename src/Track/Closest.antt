-- ===== src/Track/Closest.antt =====
-- `mp4_track_find_sample_by_time` with MP4_TIME_CMP_NEAREST.
use libmp.Prelude.{
  ℕ, ◌≤◌, ◌<◌, ok, ◌^◌, ◌-◌, ◌≡◌, ◌+◌, arith, Bool, refl, pos, suc, zero, Bool-cases, ℤ, inr, inl,
}
use libmp.Track.{
  Track, llabs_diff, Nearest, nearest_start, index_found, nearest_step, nearest_loop,
  find_sample_by_time_nearest,
}
use libmp.Track.Valid.{
  time_at, IsValid, IsOrdered, Searchable, searchable_total, first_index, read_at-in,
  first_index-lt, clamp_start-valid, rounds-valid,
}
use mathlib.Core.Path.{subst}
use libmp.Track.Rounds.{Seen, Closest, Seen-end, Seen-start, Seen-skip, Round-loop, Round-step}

abbrev pub distance : Track → ℕ → ℕ → ℕ
distance t time i = time - time_at t i + (time_at t i - time)

llabs_diff_lem : (a b : ℕ) → a < 2 ^ 63 → b < 2 ^ 63 → llabs_diff a b ≡ ok (a - b + (b - a))
unfolding llabs_diff
llabs_diff_lem a b ha hb = ground arith

module _ (t : Track) (v : IsValid t) (o : IsOrdered t) (time : ℕ) (sync : Bool)
    (fits : time < 2 ^ 63) where
  distance-unimodal :
      (i m j : ℕ)
      → i < t.sample_count
      → m < i
      → distance t time m < distance t time i
      → i ≤ j
      → j < t.sample_count
      → distance t time i ≤ distance t time j
  distance-unimodal i m j hi h f k₁ k₂ =
      omega (arith, o.rising m i (omega arith) hi, o.rising i j k₁ k₂)

  distance-small : (i : ℕ) → i < t.sample_count → distance t time i < 2 ^ 63
  distance-small i h = omega (arith, o.small i h)

  nearest_loop-Closest :
      (lo k i : ℕ) (s : Nearest)
      → lo ≤ i
      → i + k ≡ t.sample_count
      → Seen (Searchable t sync) (distance t time) lo i s
      → (s' : Nearest) × (nearest_loop k t time sync (pos i) s ≡ ok s')
        × Closest (Searchable t sync) (distance t time) lo t.sample_count (index_found s'.min_idx)
  unfolding nearest_loop
  nearest_loop-Closest lo zero i s h e seen =
      let e' : i ≡ t.sample_count = omega arith in
      (
        s,
        refl,
        subst (λ n. Closest (Searchable t sync) (distance t time) lo n (index_found s.min_idx)) e'
            (Seen-end lo i s seen),
      )
  nearest_loop-Closest lo (suc k) i s h e seen =
      let (b, f) = searchable_total t (pos i) sync v.synced in
      rw f (elim (Bool-cases b) [
        | inr no_sync ↦ rw no_sync (
            nearest_loop-Closest lo k (i + 1) s (omega arith) (omega arith)
              (Seen-skip lo i s (λ p. cc (f, no_sync, p)) seen))
        | inl is_sync ↦ rw is_sync (
            rw (read_at-in t.sample_decoding_time i 0 (omega arith)) (
              rw (llabs_diff_lem time (time_at t i) fits (o.small i (omega arith))) (
                Round-loop (nearest_step s i (distance t time i))
                  (nearest_loop k t time sync (pos (i + 1)))
                  (Round-step lo i t.sample_count (cc (f, is_sync)) h (omega arith)
                    (omega (arith, distance-small i (omega arith)))
                    (λ m j. distance-unimodal i m j (omega arith)) s seen)
                  (λ s'. nearest_loop-Closest lo k (i + 1) s' (omega arith) (omega arith)))))
      ])

  -- With a valid track whose decoding times do not fall and fit an int64_t, as `time` does, the
  -- nearest search from `start` on (a negative `start` is the first sample, one past the end is the
  -- last sample) returns the sample that counts at the least distance from `time`, the first of
  -- them if there are several, and ENOENT if none counts. Every index that it reads is in range.
  pub find_nearest-Closest :
      (start : ℤ)
      → Closest
          (Searchable t sync)
          (distance t time)
          (first_index t start)
          t.sample_count
          (find_sample_by_time_nearest t time sync start)
  unfolding find_sample_by_time_nearest
  find_nearest-Closest start =
      let lo = first_index t start in
      let (s, e, c) =
        nearest_loop-Closest lo (t.sample_count - lo) lo nearest_start (omega arith)
          (omega (arith, first_index-lt t start v)) (Seen-start lo lo nearest_start refl refl) in
      rw (clamp_start-valid t start v)
        (rw (rounds-valid t lo v (first_index-lt t start v)) (rw e c))
