-- ===== src/Build.antt =====
-- src/mp4_track.c, `mp4_tracks_build`: the sample offsets and the decoding times of one track,
-- from its tables. What `malloc` answers is an argument.
pub mod Offsets
pub mod Times
pub mod Sound
pub mod Overrun
use libmp.Prelude.{
  ◌>>◌, ℕ, List, Bool, ◌*◌, Res, add32, ok, ◌∷◌, ◌%◌, ◌>>=◌, ◌^◌, sub32, [], ◌++◌, suc, ◌+◌, zero,
  add64, if◌then◌else◌, ltb, leb, fault, err, eproto, ◌-◌, eoverflow, guard, ◌==◌, not, enomem,
}
use libmp.Types.{TimeToSampleEntry, SampleToChunkEntry}
use libmp.Track.{Track, read_at}

-- uint32_t product
abbrev pub mul32 : ℕ → ℕ → ℕ
mul32 a b = a * b % 2 ^ 32

-- The first loop over `sampleToChunkEntries` and the line after it: the number of samples, from
-- `lastFirstChunk`, `lastSamplesPerChunk` and the count so far.
unfoldable pub count_samples : List SampleToChunkEntry → ℕ → ℕ → ℕ → ℕ → ℕ
count_samples [] chunks first per count = add32 count (mul32 (add32 (sub32 chunks first) 1) per)
count_samples (e ∷ es) chunks first per count =
    count_samples es chunks e.first_chunk e.samples_per_chunk
      (add32 count (mul32 (sub32 e.first_chunk first) per))

-- The innermost loop: `k` samples of chunk `chunk`, written from index `n` on. The array has room
-- for `sampleCount` offsets.
unfoldable pub fill_chunk : ℕ → Track → ℕ → ℕ → ℕ → Res (List ℕ)
fill_chunk zero t chunk offset n = ok []
fill_chunk (suc k) t chunk offset n = read_at t.chunk_offset chunk >>= λ base.
    read_at t.sample_size n >>= λ size.
    let rest = fill_chunk k t chunk (add64 offset size) (n + 1) in
    if ltb n t.sample_count then (rest >>= λ xs. ok (add64 base offset ∷ xs)) else fault

-- The loop over `j` chunks of `per` samples.
unfoldable pub fill_chunks : ℕ → Track → ℕ → ℕ → ℕ → Res (List ℕ)
fill_chunks zero t per chunk n = ok []
fill_chunks (suc j) t per chunk n = fill_chunk per t chunk 0 n >>= λ xs.
    fill_chunks j t per (add32 chunk 1) (n + per) >>= λ ys. ok (xs ++ ys)

-- The second loop over `sampleToChunkEntries` and the chunks after the last entry.
unfoldable pub fill_offsets : List SampleToChunkEntry → Track → ℕ → ℕ → ℕ → ℕ → Res (List ℕ)
fill_offsets [] t first per chunk n =
    fill_chunks (add32 (sub32 t.chunk_count first) 1) t per chunk n
fill_offsets (e ∷ es) t first per chunk n =
    let chunks = sub32 e.first_chunk first in
    fill_chunks chunks t per chunk n >>= λ xs.
    fill_offsets es t e.first_chunk e.samples_per_chunk (add32 chunk chunks) (n + chunks * per)
    >>= λ ys. ok (xs ++ ys)

-- The sum of the entries' counts, as a uint32_t.
unfoldable pub sum_counts : List TimeToSampleEntry → ℕ → ℕ
sum_counts [] count = count
sum_counts (e ∷ es) count = sum_counts es (add32 count e.sample_count)

-- The loop over `j` samples of an entry, at timestamp `ts` and index `k`: the times written, and
-- `ts` and `k` after it.
unfoldable pub fill_entry : ℕ → ℕ → ℕ → ℕ → ℕ → Res (List ℕ × ℕ × ℕ)
fill_entry zero delta ts k n = ok ([], ts, k)
fill_entry (suc j) delta ts k n =
    let rest = fill_entry j delta (add64 ts delta) (k + 1) n >>= λ r. ok (ts ∷ r.0, r.1, r.2) in
    if leb n k then err eproto else if ltb (2 ^ 64 - 1 - ts) delta then err eoverflow else rest

-- The loop over `timeToSampleEntries`.
unfoldable pub fill_times : List TimeToSampleEntry → ℕ → ℕ → ℕ → Res (List ℕ)
fill_times [] ts k n = ok []
fill_times (e ∷ es) ts k n = fill_entry e.sample_count e.sample_delta ts k n >>= λ r.
    fill_times es r.1 r.2 n >>= λ ys. ok (r.0 ++ ys)

-- One round of `mp4_tracks_build` up to the `switch`.
unfoldable pub build_track : Bool → Bool → Track → Res Track
build_track room₁ room₂ t = do
  let count = count_samples t.sample_to_chunk_entries t.chunk_count 1 0 0
  guard (count == t.sample_count) eproto
  guard (not (count == 0)) eproto
  guard room₁ enomem
  offsets ← fill_offsets t.sample_to_chunk_entries t 1 0 0 0
  guard (sum_counts t.time_to_sample_entries 0 == t.sample_count) eproto
  guard room₂ enomem
  times ← fill_times t.time_to_sample_entries 0 0 t.sample_count
  ok (record t { sample_offset = offsets; sample_decoding_time = times })
