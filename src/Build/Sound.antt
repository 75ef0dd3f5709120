-- ===== src/Build/Sound.antt =====
-- `mp4_tracks_build` on one track whose tables agree: what it leaves, and when it refuses.
use libmp.Build.{count_samples, sum_counts, build_track, fill_offsets}
use libmp.Track.{Track}
use libmp.Prelude.{
  List, ◌≡◌, ◌<◌, ◌==◌, true, ok, ◌^◌, false, arith, ℕ, ◌≤◌, sum, ◌∙◌, ◌+◌, err, eoverflow, ◌%◌,
  add32, length, ◌∷◌, sub32, [], ◌-◌, sum-replicate, sum-append, replicate,
}
use libmp.Build.Offsets.{HasRoom, lay_chunks, InOrder, plan, fill_offsets-lay, InOrder-le}
use libmp.Types.{TimeToSampleEntry, SampleToChunkEntry}
use libmp.Build.Times.{
  total_time, fill_times-decode, decode, total_count, fill_times-overflow, length-decode,
  Rising-decode, Rising-get_or, get_or-le_end,
}
use libmp.Track.Valid.{SyncFits, IsValid, IsOrdered}

-- Without wrap-around the count is the number of samples that the plan has.
pub count_samples-plan :
    (es : List SampleToChunkEntry) (chunks first per count : ℕ)
    → chunks + 1 < 2 ^ 32
    → InOrder es chunks first
    → count < 2 ^ 32
    → count_samples es chunks first per count ≡ (count + sum (plan es chunks first per)) % 2 ^ 32
unfolding count_samples
count_samples-plan [] chunks first per count few h c =
    let left : add32 (sub32 chunks first) 1 ≡ chunks + 1 - first = omega arith in
    rw left (omega (arith, sum-replicate (chunks + 1 - first) per))
count_samples-plan (e ∷ es) chunks first per count few h c =
    let k = e.first_chunk - first in
    let later = plan es chunks e.first_chunk e.samples_per_chunk in
    let gap : sub32 e.first_chunk first ≡ k =
      omega (arith, InOrder-le es chunks e.first_chunk h.1, h.0) in
    rw gap (
      count_samples-plan es chunks e.first_chunk e.samples_per_chunk _ few h.1 (omega arith)
      ∙ omega (arith, sum-append (replicate k per) later, sum-replicate k per))

pub sum_counts-total :
    (es : List TimeToSampleEntry) (count : ℕ)
    → count < 2 ^ 32
    → sum_counts es count ≡ (count + total_count es) % 2 ^ 32
unfolding sum_counts
sum_counts-total [] count h = omega arith
sum_counts-total (e ∷ es) count h =
    sum_counts-total es (add32 count e.sample_count) (omega arith) ∙ omega arith

-- The tables of the track agree on the number of its samples, which is not 0.
pub record IsConsistent (t : Track) : Type 0 where
  pub room : HasRoom t
  pub ordered : InOrder t.sample_to_chunk_entries t.chunk_count 1
  pub planned : sum (plan t.sample_to_chunk_entries t.chunk_count 1 0) ≡ t.sample_count
  pub counted : total_count t.time_to_sample_entries ≡ t.sample_count
  pub nonempty : 0 < t.sample_count
  pub small : t.sample_count < 2 ^ 32

-- The track with the offsets and the times that its tables mean.
abbrev pub built : Track → Track
built t = record t {
  sample_offset =
      lay_chunks t.sample_size t.chunk_offset (plan t.sample_to_chunk_entries t.chunk_count 1 0) 0
        0;
  sample_decoding_time = decode t.time_to_sample_entries 0;
}

module _ (t : Track) (c : IsConsistent t) where
  count-ok : count_samples t.sample_to_chunk_entries t.chunk_count 1 0 0 ≡ t.sample_count
  count-ok =
      count_samples-plan t.sample_to_chunk_entries t.chunk_count 1 0 0 c.room.few c.ordered
        (omega arith)
      ∙ omega (arith, c.planned, c.small)

  counts-ok : sum_counts t.time_to_sample_entries 0 ≡ t.sample_count
  counts-ok =
      sum_counts-total t.time_to_sample_entries 0 (omega arith) ∙ omega (arith, c.counted, c.small)

  offsets-ok : fill_offsets t.sample_to_chunk_entries t 1 0 0 0 ≡ ok (built t).sample_offset
  offsets-ok =
      fill_offsets-lay t c.room t.sample_to_chunk_entries 1 0 0 0 c.ordered (omega arith)
        (omega (arith, c.planned))

  nonzero : (t.sample_count == 0) ≡ false
  nonzero = ground (arith, c.nonempty)

  self : (t.sample_count == t.sample_count) ≡ true
  self = ground arith

  -- From tables that agree (enough sizes and chunk offsets, chunks in order, both counts those of
  -- the track, which is not 0), whose time fits 64 bits, and with memory to be had, the build
  -- leaves exactly the offsets that the sample-to-chunk plan means and the times that the
  -- time-to-sample table means.
  pub build_track-built :
      total_time t.time_to_sample_entries < 2 ^ 64 → build_track true true t ≡ ok (built t)
  unfolding build_track
  build_track-built h = rw (
    count-ok,
    self,
    nonzero,
    offsets-ok,
    counts-ok,
    self,
    fill_times-decode t.time_to_sample_entries 0 0 t.sample_count (omega (arith, c.counted))
        (omega arith),
  )

  -- From tables that agree, but whose time does not fit 64 bits, the build with memory to be had
  -- answers EOVERFLOW.
  pub build_track-overflow :
      2 ^ 64 ≤ total_time t.time_to_sample_entries → build_track true true t ≡ err eoverflow
  unfolding build_track
  build_track-overflow h = rw (
    count-ok,
    self,
    nonzero,
    offsets-ok,
    counts-ok,
    self,
    fill_times-overflow t.time_to_sample_entries 0 0 t.sample_count (omega (arith, c.counted))
        (omega arith) (omega arith),
  )

  -- The track that the tables mean is valid, with times that do not fall.
  pub built-IsValid :
      t.sample_count < 2 ^ 31
      → SyncFits t.sync_sample_entry_count t.sync_sample_entries
      → total_time t.time_to_sample_entries < 2 ^ 63
      → IsValid (built t) × IsOrdered (built t)
  built-IsValid few fits time =
      let times = decode t.time_to_sample_entries 0 in
      let long : length times ≡ t.sample_count =
        length-decode t.time_to_sample_entries 0 ∙ c.counted in
      let rising = Rising-decode t.time_to_sample_entries 0 in
      (
        record { few = few; nonempty = c.nonempty; timed = long; synced = fits },
        record {
          rising = λ i j h₁ h₂. Rising-get_or times 0 _ i j h₁ (omega arith) rising;
          small = λ i h. omega (arith, get_or-le_end times 0 _ i (omega arith) rising);
        },
      )

  -- If the tables of a track agree, it has fewer than 2^31 samples and as many sync entries as it
  -- counts, and its time is below 2^63, then the build with memory to be had succeeds, and the
  -- track that it leaves is what the searches by time ask for: as many times as samples, times that
  -- do not fall, and that fit an int64_t, with the sync entries that it counts.
  pub build_track-IsValid :
      t.sample_count < 2 ^ 31
      → SyncFits t.sync_sample_entry_count t.sync_sample_entries
      → total_time t.time_to_sample_entries < 2 ^ 63
      → (t' : Track) × (build_track true true t ≡ ok t') × IsValid t' × IsOrdered t'
  build_track-IsValid few fits time =
      let (valid, ordered) = built-IsValid few fits time in
      (built t, build_track-built (omega arith), valid, ordered)
