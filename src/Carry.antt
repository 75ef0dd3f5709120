-- ===== src/Carry.antt =====
-- src/mp4_mux.c and src/mp4_track.c together: a track that is muxed and demuxed. The boxes stsz, stco
-- or co64, stsc and stts carry the tables from the one to the other.
pub mod Tables
pub mod Chunks
pub mod Sizes
pub mod Headers
pub mod TrackHeader
pub mod ReadBack
pub mod Passes
pub mod Stbl
pub mod Chain
pub mod Whole
pub mod Stored
pub mod Played
use libmp.Prelude.{
  ℕ, List, sum, length, Bool, ◌<◌, ◌≡◌, map, ◌∷◌, true, ◌^◌, ◌+◌, replicate, ap, ok, sym, ◌-◌, [],
  suc, ◌∙◌, ok_eq, length-map, ◌*◌, refl, >>=-eq-ok, arith, ◌≤◌, sum-replicate, All, zero, get_or,
  ◌++◌,
}
use libmp.Mux.Tts.{tts_of, compute_tts, tts_loop, tts_start, push_entry}
use libmp.Mux.{MuxTrack}
use libmp.Build.Offsets.{lay_chunks, HasRoom, plan, lay_chunk, InOrder}
use libmp.Mux.Sample.Steps.{IsAligned}
use libmp.Types.{TimeToSampleEntry, SampleToChunkEntry}
use libmp.Track.{Track}
use libmp.Build.Times.{total_count, decode, ramp}
use libmp.Build.Sound.{IsConsistent, built, build_track-built}
use libmp.Mux.Tts.RoundTrip.{Climbs, last_time, compute_tts-decode}
use libmp.Build.{build_track}
use mathlib.Core.List.{map-append}

-- The demuxed track whose tables are those of a muxed one.
abbrev pub carried : MuxTrack → Track → Track
carried t u = record u {
  sample_count = length t.samples.entries;
  sample_size = map (λ s. s.size) t.samples.entries;
  chunk_count = length t.chunks.entries;
  chunk_offset = t.chunks.entries;
  time_to_sample_entries = t.time_to_sample.entries;
  sample_to_chunk_entries = t.sample_to_chunk.entries;
}

-- One chunk a sample
abbrev pub one_each : List SampleToChunkEntry
one_each = record { first_chunk = 1; samples_per_chunk = 1; sample_description_index = 1 } ∷ []

lay_chunks-skip :
    (sizes bases : List ℕ) (base : ℕ) (per : List ℕ) (chunk n : ℕ)
    → lay_chunks sizes (base ∷ bases) per (suc chunk) n ≡ lay_chunks sizes bases per chunk n
lay_chunks-skip sizes bases base [] chunk n = refl
lay_chunks-skip sizes bases base (p ∷ ps) chunk n =
    let next : suc chunk + 1 ≡ suc (chunk + 1) = omega arith in
    rw next (
      ap (λ ys. lay_chunk sizes p n (get_or bases chunk 0) ++ ys)
        (lay_chunks-skip sizes bases base ps (chunk + 1) (n + p)))

-- With one sample a chunk, the samples are where the chunks are.
lay_chunks-ones :
    (sizes bases : List ℕ) (n : ℕ) → lay_chunks sizes bases (replicate (length bases) 1) 0 n ≡ bases
lay_chunks-ones sizes [] n = refl
lay_chunks-ones sizes (b ∷ bs) n =
    ap (λ ys. b ∷ ys)
      (lay_chunks-skip sizes bs b (replicate (length bs) 1) 0 (n + 1)
        ∙ lay_chunks-ones sizes bs (n + 1))

ramp-shift : (j delta ts d : ℕ) → map (λ x. x + d) (ramp j delta ts) ≡ ramp j delta (ts + d)
ramp-shift zero delta ts d = refl
ramp-shift (suc j) delta ts d =
    let e : ts + d + delta ≡ ts + delta + d = omega arith in
    rw e (ap (λ ys. (ts + d) ∷ ys) (ramp-shift j delta (ts + delta) d))

decode-shift :
    (es : List TimeToSampleEntry) (ts d : ℕ) → map (λ x. x + d) (decode es ts) ≡ decode es (ts + d)
decode-shift [] ts d = refl
decode-shift (e ∷ es) ts d =
    let k = e.sample_count * e.sample_delta in
    let p : ts + d + k ≡ ts + k + d = omega arith in
    rw (map-append, ramp-shift e.sample_count e.sample_delta ts d, decode-shift es (ts + k) d, p)
      refl

last_time-small :
    (first : ℕ) (rest : List ℕ) → first < 2 ^ 64 → Climbs first rest → last_time first rest < 2 ^ 64
last_time-small first [] h c = h
last_time-small first (x ∷ xs) h c = last_time-small x xs c.2 c.3

-- The tables that `mp4_mux_track_compute_tts` does not write.
abbrev SameTables : MuxTrack → MuxTrack → Type 0
SameTables t t' =
    (t'.samples ≡ t.samples) × (t'.chunks ≡ t.chunks) × (t'.sample_to_chunk ≡ t.sample_to_chunk)

tts_of_kept :
    (realloc : ℕ → Bool) (dest : ℕ) (t t' : MuxTrack) (times : List ℕ)
    → tts_of realloc dest t times ≡ ok t'
    → SameTables t t'
unfolding tts_of
tts_of_kept realloc dest t t' [] p = let q = ok_eq p in rw (sym q) (refl, refl, refl)
tts_of_kept realloc dest t t' (first ∷ rest) p =
    let (s, _, q) =
      >>=-eq-ok (tts_loop realloc t.timescale dest rest (tts_start realloc t first)) _ p in
    let (table, _, r) = >>=-eq-ok (push_entry realloc s.table 0) _ q in
    let u = ok_eq r in rw (sym u) (refl, refl, refl)

-- A track as the muxer keeps it: one chunk a sample, decoding times that do not fall and go up by
-- less than UINT32_MAX ticks, and offsets that fit 64 bits with the samples behind them.
pub record IsMuxed (t : MuxTrack) (first : ℕ) (rest : List ℕ) : Type 0 where
  pub aligned : IsAligned t
  pub chunked : t.sample_to_chunk.entries ≡ one_each
  pub ticks : 0 < t.timescale
  pub timed : map (λ s. s.decoding_time) t.samples.entries ≡ first ∷ rest
  pub start : first < 2 ^ 64
  pub climbs : Climbs first rest
  pub few : length rest + 131 ≤ 2 ^ 32
  pub fits :
      All (λ base. base + sum (map (λ s. s.size) t.samples.entries) < 2 ^ 64) t.chunks.entries

InOrder-one_each : (es : List SampleToChunkEntry) (n : ℕ) → es ≡ one_each → InOrder es n 1
InOrder-one_each es n e = rw (e, InOrder) (omega arith, omega arith)

plan-one_each :
    (es : List SampleToChunkEntry) (n : ℕ) → es ≡ one_each → plan es n 1 0 ≡ replicate n 1
plan-one_each es n e = let k : n + 1 - 1 ≡ n = omega arith in rw (e, k) refl

lay_chunks-one_each :
    (sizes bases : List ℕ) (es : List SampleToChunkEntry)
    → es ≡ one_each
    → lay_chunks sizes bases (plan es (length bases) 1 0) 0 0 ≡ bases
lay_chunks-one_each sizes bases es e =
    rw (plan-one_each es (length bases) e) (lay_chunks-ones sizes bases 0)

compute_tts_kept :
    (realloc : ℕ → Bool) (dest : ℕ) (t t' : MuxTrack)
    → compute_tts realloc dest t ≡ ok t'
    → SameTables t t'
unfolding compute_tts
compute_tts_kept realloc dest t t' e =
    tts_of_kept realloc dest t t' (map (λ s. s.decoding_time) t.samples.entries) e

module _ (t : MuxTrack) (first : ℕ) (rest : List ℕ) (m : IsMuxed t first rest) where
  length-samples : length t.samples.entries ≡ length rest + 1
  length-samples =
      sym (length-map t.samples.entries (λ s. s.decoding_time)) ∙ ap length m.timed ∙ omega arith

  length-chunks : length t.chunks.entries ≡ length t.samples.entries
  length-chunks = ap length m.aligned.offsets ∙ length-map t.samples.entries (λ s. s.offset)

  carried-HasRoom : (t' : MuxTrack) (u : Track) → SameTables t t' → HasRoom (carried t' u)
  carried-HasRoom t' u same =
      rw (same.0, same.1, same.2)
        record {
          sized = length-map t.samples.entries (λ s. s.size);
          based = refl;
          few = omega (arith, length-chunks, length-samples, m.few);
          fits = m.fits;
        }

  chunked : (t' : MuxTrack) → SameTables t t' → t'.sample_to_chunk.entries ≡ one_each
  chunked t' same = ap (λ x. x.entries) same.2 ∙ m.chunked

  carried-IsConsistent :
      (t' : MuxTrack) (u : Track)
      → SameTables t t'
      → total_count t'.time_to_sample.entries ≡ length rest + 1
      → IsConsistent (carried t' u)
  carried-IsConsistent t' u same counts = record {
    room = carried-HasRoom t' u same;
    ordered = InOrder-one_each _ _ (chunked t' same);
    planned =
        ap sum
          (plan-one_each t'.sample_to_chunk.entries (length t'.chunks.entries) (chunked t' same))
        ∙ rw (same.0, same.1)
            (sum-replicate (length t.chunks.entries) 1 ∙ omega (arith, length-chunks));
    counted = rw (same.0) (counts ∙ sym length-samples);
    nonempty = rw (same.0) (omega (arith, length-samples));
    small = rw (same.0) (omega (arith, length-samples, m.few));
  }

  -- A track as the muxer keeps it (see `IsMuxed`), with memory to be had: the time-to-sample table is
  -- computed, and the demuxer that has the track's tables builds, without an error or an access
  -- outside its arrays, exactly the offsets and the sizes of the samples, and their decoding times
  -- less the first one.
  pub build_track-compute_tts :
      (realloc : ℕ → Bool) (dest : ℕ) (u : Track)
      → ((n : ℕ) → realloc n ≡ true)
      → (t' : MuxTrack) × (compute_tts realloc dest t ≡ ok t')
        × (u' : Track) × (build_track true true (carried t' u) ≡ ok u')
        × (u'.sample_offset ≡ map (λ s. s.offset) t.samples.entries)
        × (u'.sample_size ≡ map (λ s. s.size) t.samples.entries)
        × (map (λ x. x + first) u'.sample_decoding_time ≡ first ∷ rest)
  build_track-compute_tts realloc dest u room =
      let (t', e, means, counts, time, _) =
        compute_tts-decode realloc room t.timescale dest m.ticks first t rest refl m.timed m.start
          m.climbs m.few in
      let same = compute_tts_kept realloc dest t t' e in
      let zero_first : 0 + first ≡ first = omega arith in
      let consistent = carried-IsConsistent t' u same counts in
      (
        t',
        e,
        built (carried t' u),
        build_track-built (carried t' u) consistent
            (omega (arith, time, last_time-small first rest m.start m.climbs)),
        lay_chunks-one_each _ t'.chunks.entries _ (chunked t' same)
            ∙ ap (λ x. x.entries) same.1
            ∙ m.aligned.offsets,
        ap (λ x. map (λ s. s.size) x.entries) same.0,
        decode-shift t'.time_to_sample.entries 0 first
            ∙ ap (decode t'.time_to_sample.entries) zero_first
            ∙ means,
      )
