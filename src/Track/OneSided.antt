-- ===== src/Track/OneSided.antt =====
-- `mp4_track_find_sample_by_time` with the one-sided comparisons: the last sample before a time, and the
-- first one after it.
use libmp.Prelude.{
  ℕ, zero, suc, ◌≤◌, ◌<◌, ◌≡◌, refl, arith, Bool, true, false, length, ltb, leb, pos, ok, ℤ, ◌+◌,
  ok_eq,
}
use libmp.Types.{TimeCmp}
use libmp.Track.{
  Track, check_lt, check_gt, lt_loop, find_sample_by_time_gt, gt_loop, find_sample_by_time_lt,
}
use libmp.Track.Spec.{Last, Last-round, First, First-end, First-round}
use libmp.Track.Valid.{
  IsValid, time_at, read_at-in, first_index, last_index, clamp_start-valid, clamp_end-valid,
  rounds-valid, first_index-lt, last_index-lt, searchable_total, Searchable,
}

-- How a decoding time stands to the wanted time under each comparison.
abbrev pub Before : TimeCmp → ℕ → ℕ → Type 0
Before TimeCmp.lt time dt = dt < time
Before TimeCmp.lt_eq time dt = dt ≤ time
Before _ time dt = ⊥

abbrev pub After : TimeCmp → ℕ → ℕ → Type 0
After TimeCmp.gt time dt = time < dt
After TimeCmp.gt_eq time dt = time ≤ dt
After _ time dt = ⊥

check_lt_lem :
    (t : Track) (time : ℕ) (cmp : TimeCmp) (i : ℕ)
    → i < length t.sample_decoding_time
    → (b : Bool) × (check_lt t time cmp i ≡ ok b)
      × (b ≡ true → Before cmp time (time_at t i))
      × (Before cmp time (time_at t i) → b ≡ true)
unfolding check_lt
check_lt_lem t time TimeCmp.lt i h = (
  ltb (time_at t i) time,
  rw (read_at-in t.sample_decoding_time i 0 h),
  ground arith,
  ground arith,
)
check_lt_lem t time TimeCmp.lt_eq i h = (
  leb (time_at t i) time,
  rw (read_at-in t.sample_decoding_time i 0 h),
  ground arith,
  ground arith,
)
check_lt_lem t time _ i h = (false, refl, λ e. cc, λ e. absurd e)

check_gt_lem :
    (t : Track) (time : ℕ) (cmp : TimeCmp) (i : ℕ)
    → i < length t.sample_decoding_time
    → (b : Bool) × (check_gt t time cmp (pos i) ≡ ok b)
      × (b ≡ true → After cmp time (time_at t i))
      × (After cmp time (time_at t i) → b ≡ true)
unfolding check_gt
check_gt_lem t time TimeCmp.gt i h = (
  ltb time (time_at t i),
  rw (read_at-in t.sample_decoding_time i 0 h),
  ground arith,
  ground arith,
)
check_gt_lem t time TimeCmp.gt_eq i h = (
  leb time (time_at t i),
  rw (read_at-in t.sample_decoding_time i 0 h),
  ground arith,
  ground arith,
)
check_gt_lem t time _ i h = (false, refl, λ e. cc, λ e. absurd e)

module _ (t : Track) (v : IsValid t) (time : ℕ) (cmp : TimeCmp) (sync : Bool) where
  abbrev pub IsBefore : ℕ → Type 0
  IsBefore i = Before cmp time (time_at t i) × Searchable t sync i

  abbrev pub IsAfter : ℕ → Type 0
  IsAfter i = After cmp time (time_at t i) × Searchable t sync i

  lt_loop-Last : (n : ℕ) → n ≤ t.sample_count → Last IsBefore n (lt_loop n t time cmp sync)
  unfolding lt_loop
  lt_loop-Last zero h = Last.missing (λ j k. absurd (omega arith))
  lt_loop-Last (suc n) h =
      let (b, e, to, from) = check_lt_lem t time cmp n (omega arith) in
      let (s, f) = searchable_total t (pos n) sync v.synced in
      rw (e, f)
        (Last-round b s n _ (λ p q. (to p, rw (f, q))) (λ p. (from p.0, ok_eq (rw f at p.1)))
          (lt_loop-Last n (omega arith)))

  gt_loop-First :
      (k i : ℕ)
      → i + k ≡ t.sample_count
      → First IsAfter i t.sample_count (gt_loop k t time cmp sync (pos i))
  unfolding gt_loop
  gt_loop-First zero i h = First-end i _ (omega arith)
  gt_loop-First (suc k) i h =
      let (b, e, to, from) = check_gt_lem t time cmp i (omega arith) in
      let (s, f) = searchable_total t (pos i) sync v.synced in
      rw (e, f)
        (First-round b s i _ _ (omega arith) (λ p q. (to p, rw (f, q)))
          (λ p. (from p.0, ok_eq (rw f at p.1))) (gt_loop-First k (i + 1) (omega arith)))

  -- With a valid track the search for a sample after a time (strictly for `gt`, weakly for
  -- `gt_eq`), from `start` on, returns the first such sample that counts, where a negative `start`
  -- is the first sample and one past the end is the last sample. If none is there it answers ENOENT.
  -- Every index that it reads is in range.
  pub find_gt-First :
      (start : ℤ)
      → First IsAfter
          (first_index t start)
          t.sample_count
          (find_sample_by_time_gt t time cmp sync start)
  unfolding find_sample_by_time_gt
  find_gt-First start = rw (clamp_start-valid t start v) (
      rw (rounds-valid t (first_index t start) v (first_index-lt t start v))
        (gt_loop-First _ (first_index t start) (omega (arith, first_index-lt t start v))))

  -- With a valid track the search for a sample before a time (strictly for `lt`, weakly for
  -- `lt_eq`), from `start` down, returns the last such sample that counts, where a `start` that is
  -- negative or past the end is the last sample. If none is there it answers ENOENT. Every index
  -- that it reads is in range.
  pub find_lt-Last :
      (start : ℤ)
      → Last IsBefore (suc (last_index t start)) (find_sample_by_time_lt t time cmp sync start)
  unfolding find_sample_by_time_lt
  find_lt-Last start =
      rw (clamp_end-valid t start v, find_sample_by_time_lt)
        (lt_loop-Last (suc (last_index t start)) (last_index-lt t start v))
