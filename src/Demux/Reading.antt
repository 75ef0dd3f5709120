-- ===== src/Demux/Reading.antt =====
-- src/mp4_demux.c: what `mp4_demux_get_track_sample` tells of a sample.
use libmp.Demux.Sample.{time_of_found, TrackSample, sample_of, read_buffer, read_metadata}
use libmp.Prelude.{
  ℕ, Res, ◌≡◌, ◌≤◌, ok, List, length, get_or, ◌<◌, if◌then◌else◌, ◌+◌, err, arith, ltb, fault,
  sub32, refl, true, ◌-◌, ◌∷◌, suc, Bool-cases, Bool, inl, [], none, inr, Option, zero, ◌^◌, lt→ltb,
  pos, not, ◌%◌, ◌==◌, ◌&&◌,
}
use libmp.Track.{
  Track, read_at, find_sample_by_time, find_sample_by_time_lt, is_sample_searchable,
  find_sample_by_time_gt,
}
use libmp.Track.Valid.{
  IsValid, time_at, read_at-in, Searchable, is_sync_sample_total, first_index, last_index,
}
use libmp.Track.Spec.{First, Last}
use libmp.Track.OneSided.{find_lt-Last, find_gt-First}
use libmp.Types.{TimeCmp}

-- The time of the sample that a search found, and 0 if it found none.
abbrev pub time_or_zero : Track → Res ℕ → ℕ
time_or_zero t (ok i) = time_at t i
time_or_zero t (err e) = 0
time_or_zero t fault = 0

-- The arrays of the track have an entry for each sample.
pub record IsLoaded (t : Track) : Type 0 where
  pub valid : IsValid t
  pub sized : length t.sample_size ≡ t.sample_count
  pub placed : length t.sample_offset ≡ t.sample_count

-- What is told of the sample `i` of a track without a metadata track, when the sync samples around it
-- are `prev` and `next`.
abbrev pub told : Track → ℕ → List ℕ → Bool → Res ℕ → Res ℕ → TrackSample
told t i bytes sync prev next = record {
  size = get_or t.sample_size i 0;
  offset = get_or t.sample_offset i 0;
  metadata_size = 0;
  silent = not (t.pending_seek_time == 0) && ltb (time_at t i) t.pending_seek_time;
  sync = sync;
  dts = time_at t i;
  next_dts = get_or t.sample_decoding_time (i + 1) 0;
  prev_sync_dts = time_or_zero t prev;
  next_sync_dts = time_or_zero t next;
  bytes = bytes;
  metadata_bytes = [];
}

-- The sync samples around sample `i`: the last one before its time, and the first one after it.
abbrev pub SyncAround : Track → ℕ → Res ℕ → Res ℕ → Type 0
SyncAround t i prev next =
    Last (λ j. (time_at t j < time_at t i) × Searchable t true j) (suc i) prev
    × First (λ j. (time_at t i < time_at t j) × Searchable t true j) i t.sample_count next

time_of_found-Last :
    (t : Track) (r : Res ℕ) {P : ℕ → Type 0} (hi : ℕ)
    → hi ≤ length t.sample_decoding_time
    → Last P hi r
    → time_of_found t r ≡ ok (time_or_zero t r)
unfolding time_of_found
time_of_found-Last t r hi h (Last.found i a _ _) =
    read_at-in t.sample_decoding_time i 0 (omega arith)
time_of_found-Last t r hi h (Last.missing _) = refl

time_of_found-First :
    (t : Track) (r : Res ℕ) {P : ℕ → Type 0} (lo hi : ℕ)
    → hi ≤ length t.sample_decoding_time
    → First P lo hi r
    → time_of_found t r ≡ ok (time_or_zero t r)
unfolding time_of_found
time_of_found-First t r lo hi h (First.found i _ a _ _) =
    read_at-in t.sample_decoding_time i 0 (omega arith)
time_of_found-First t r lo hi h (First.missing _) = refl

get_or-end : (xs : List ℕ) (i : ℕ) → length xs ≤ i → get_or xs i 0 ≡ 0
get_or-end [] i h = refl
get_or-end (x ∷ xs) zero h = absurd (omega arith)
get_or-end (x ∷ xs) (suc i) h = get_or-end xs i (omega arith)

module _ (t : Track) (l : IsLoaded t) where
  next_time :
      (i : ℕ)
      → i < t.sample_count
      → (if ltb i (sub32 t.sample_count 1) then read_at t.sample_decoding_time (i + 1) else ok 0)
        ≡ ok (get_or t.sample_decoding_time (i + 1) 0)
  next_time i h =
      let last : sub32 t.sample_count 1 ≡ t.sample_count - 1 = omega (arith, l.valid.few) in
      elim (Bool-cases (ltb i (t.sample_count - 1))) [
        | inl p ↦
            let inside : i + 1 < length t.sample_decoding_time = rw l.valid.timed (ground arith) in
            rw (last, p) (read_at-in t.sample_decoding_time (i + 1) 0 inside)
        | inr p ↦
            let outside : length t.sample_decoding_time ≤ i + 1 = rw l.valid.timed (ground arith) in
            rw (last, p, get_or-end t.sample_decoding_time (i + 1) outside) refl
      ]

  sync_around :
      (i : ℕ)
      → i < t.sample_count
      → SyncAround t i
          (find_sample_by_time_lt t (time_at t i) TimeCmp.lt true (pos i))
          (find_sample_by_time_gt t (time_at t i) TimeCmp.gt true (pos i))
  sync_around i h =
      let from : first_index t (pos i) ≡ i = omega arith in
      let to : last_index t (pos i) ≡ i = omega arith in
      (
        rw to at (find_lt-Last t l.valid (time_at t i) TimeCmp.lt true (pos i)),
        rw from at (find_gt-First t l.valid (time_at t i) TimeCmp.gt true (pos i)),
      )

  -- For a track without a metadata track whose arrays have an entry for each sample, with a next
  -- sample to read, and a buffer of the caller that can be filled with it: reading succeeds, and
  -- tells the size, the offset and the time of that sample, the time of the one behind it (0 at the
  -- end), whether it is a sync sample, and the times of the last sync sample before its time and of
  -- the first one after it (0 if there is none). It is silent if its time is before the pending one.
  pub sample_of-told :
      (pread : ℕ → ℕ → Res (List ℕ)) (buffer : Option ℕ) (bytes : List ℕ)
      → t.next_sample < t.sample_count
      → read_buffer pread true buffer
          (get_or t.sample_offset t.next_sample 0)
          (get_or t.sample_size t.next_sample 0)
        ≡ ok bytes
      → (sync : Bool) × (prev next : Res ℕ) × (sample_of pread none t buffer none
          ≡ ok (told t t.next_sample bytes sync prev next))
        × SyncAround t t.next_sample prev next
        × (is_sample_searchable t (pos t.next_sample) true ≡ ok sync)
  unfolding sample_of read_metadata find_sample_by_time is_sample_searchable
  sample_of-told pread buffer bytes h b =
      let i = t.next_sample in
      let small : ltb i (2 ^ 31) ≡ true = lt→ltb i (2 ^ 31) (omega (arith, h, l.valid.few)) in
      let same : i % 2 ^ 32 ≡ i = omega (arith, h, l.valid.few) in
      let here : i < length t.sample_decoding_time = rw l.valid.timed h in
      let whole : t.sample_count ≤ length t.sample_decoding_time = rw l.valid.timed (omega arith) in
      let at_size = read_at-in t.sample_size i 0 (rw l.sized h) in
      let at_offset = read_at-in t.sample_offset i 0 (rw l.placed h) in
      let at_time = read_at-in t.sample_decoding_time i 0 here in
      let (before, after) = sync_around i h in
      let prev_ok = time_of_found-Last t _ (suc i) here before in
      let next_ok = time_of_found-First t _ i t.sample_count whole after in
      let (r, sync_ok) = is_sync_sample_total t i l.valid.synced in
      (
        r.0,
        find_sample_by_time_lt t (time_at t i) TimeCmp.lt true (pos i),
        find_sample_by_time_gt t (time_at t i) TimeCmp.gt true (pos i),
        rw (at_size, at_offset, b, at_time, next_time i h, small, prev_ok, next_ok, sync_ok) refl,
        (before, after),
        rw (same, sync_ok) refl,
      )
