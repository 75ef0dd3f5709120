-- ===== src/Build/Overrun.antt =====
-- The count of samples is checked modulo 2^32 only.
use libmp.Track.{read_at, Track}
use libmp.Prelude.{
  length, List, ℕ, ◌≡◌, ◌≤◌, ◌+◌, fault, ◌<◌, ◌^◌, ◌∷◌, arith, ok, suc, ◌*◌, add32, sum, [], ◌++◌,
  get_or, refl, zero, true, sub32, add64, lt→ltb, ◌-◌, sum-replicate, ◌∙◌, ◌==◌, replicate,
  sum-append, false,
}
use libmp.Build.{fill_chunks, fill_chunk, fill_offsets, build_track, count_samples}
use libmp.Build.Offsets.{InOrder, plan, InOrder-le}
use libmp.Types.{SampleToChunkEntry}
use native.Mathlib.Decide.{dec_lt}
use libmp.Track.Valid.{read_at-in}
use libmp.Build.Sound.{count_samples-plan}

read_at-out {ℓ} : {A : Type ℓ} (xs : List A) (i : ℕ) → length xs ≤ i → read_at xs i ≡ fault
unfolding read_at
read_at-out [] i h = refl
read_at-out (x ∷ xs) zero h = absurd (omega arith)
read_at-out (x ∷ xs) (suc i) h = read_at-out xs i (omega arith)

module _ (t : Track) (sized : length t.sample_size ≡ t.sample_count)
    (based : length t.chunk_offset ≡ t.chunk_count) (few : t.chunk_count + 1 < 2 ^ 32) where
  fill_chunk_total :
      (k chunk offset n : ℕ)
      → chunk < t.chunk_count
      → n + k ≤ t.sample_count
      → (xs : List ℕ) × (fill_chunk k t chunk offset n ≡ ok xs)
  unfolding fill_chunk
  fill_chunk_total zero chunk offset n h₁ h₂ = ([], refl)
  fill_chunk_total (suc k) chunk offset n h₁ h₂ =
      let base = get_or t.chunk_offset chunk 0 in
      let size = get_or t.sample_size n 0 in
      let (xs, e) = fill_chunk_total k chunk (add64 offset size) (n + 1) h₁ (omega arith) in
      (
        add64 base offset ∷ xs,
        rw (
          read_at-in t.chunk_offset chunk 0 (omega arith),
          read_at-in t.sample_size n 0 (omega arith),
          lt→ltb n t.sample_count (omega arith),
          e,
        ),
      )

  fill_chunk_fault :
      (k chunk offset n : ℕ)
      → chunk < t.chunk_count
      → t.sample_count < n + k
      → n ≤ t.sample_count
      → fill_chunk k t chunk offset n ≡ fault
  unfolding fill_chunk
  fill_chunk_fault zero chunk offset n h₁ h₂ h₃ = absurd (omega arith)
  fill_chunk_fault (suc k) chunk offset n h₁ h₂ h₃ = elim (dec_lt n t.sample_count) [
    | yes c ↦ rw (
      read_at-in t.chunk_offset chunk 0 (omega arith),
      read_at-in t.sample_size n 0 (omega arith),
      lt→ltb n t.sample_count c,
      fill_chunk_fault k chunk (add64 offset (get_or t.sample_size n 0)) (n + 1) h₁ (omega arith)
          (omega arith),
    )
    | no c ↦
        rw (
          read_at-in t.chunk_offset chunk 0 (omega arith),
          read_at-out t.sample_size n (omega arith),
        )
  ]

  fill_chunks_total :
      (j per chunk n : ℕ)
      → chunk + j ≤ t.chunk_count
      → n + j * per ≤ t.sample_count
      → (xs : List ℕ) × (fill_chunks j t per chunk n ≡ ok xs)
  unfolding fill_chunks
  fill_chunks_total zero per chunk n h₁ h₂ = ([], refl)
  fill_chunks_total (suc j) per chunk n h₁ h₂ =
      let (xs, e) = fill_chunk_total per chunk 0 n (omega arith) (omega arith) in
      let (ys, f) = fill_chunks_total j per (chunk + 1) (n + per) (omega arith) (omega arith) in
      let next : add32 chunk 1 ≡ chunk + 1 = omega arith in (xs ++ ys, rw (e, next, f))

  fill_chunks_fault :
      (j per chunk n : ℕ)
      → chunk + j ≤ t.chunk_count
      → t.sample_count < n + j * per
      → n ≤ t.sample_count
      → fill_chunks j t per chunk n ≡ fault
  unfolding fill_chunks
  fill_chunks_fault zero per chunk n h₁ h₂ h₃ = absurd (omega arith)
  fill_chunks_fault (suc j) per chunk n h₁ h₂ h₃ =
      let next : add32 chunk 1 ≡ chunk + 1 = omega arith in
      elim (dec_lt t.sample_count (n + per)) [
        | yes c ↦ rw (fill_chunk_fault per chunk 0 n (omega arith) c h₃)
        | no c ↦
            let (xs, e) = fill_chunk_total per chunk 0 n (omega arith) (omega arith) in
            rw (
              e,
              next,
              fill_chunks_fault j per (chunk + 1) (n + per) (omega arith) (omega arith)
                  (omega arith),
            )
      ]

  fill_offsets_fault :
      (es : List SampleToChunkEntry) (first per chunk n : ℕ)
      → InOrder es t.chunk_count first
      → chunk + 1 ≡ first
      → n ≤ t.sample_count
      → t.sample_count < n + sum (plan es t.chunk_count first per)
      → fill_offsets es t first per chunk n ≡ fault
  unfolding fill_offsets
  fill_offsets_fault [] first per chunk n h₁ h₂ h₃ h₄ =
      let left : add32 (sub32 t.chunk_count first) 1 ≡ t.chunk_count + 1 - first = omega arith in
      rw left (
        fill_chunks_fault (t.chunk_count + 1 - first) per chunk n (omega arith)
          (omega (arith, sum-replicate (t.chunk_count + 1 - first) per)) h₃)
  fill_offsets_fault (e ∷ es) first per chunk n h₁ h₂ h₃ h₄ =
      let k = e.first_chunk - first in
      let later = plan es t.chunk_count e.first_chunk e.samples_per_chunk in
      let end = InOrder-le es t.chunk_count e.first_chunk h₁.1 in
      let gap : sub32 e.first_chunk first ≡ k = omega (arith, end, h₁.0) in
      let next : add32 chunk k ≡ chunk + k = omega (arith, end, h₁.0) in
      let used : sum (replicate k per ++ later) ≡ k * per + sum later =
        omega (arith, sum-append (replicate k per) later, sum-replicate k per) in
      rw (gap, next)
        (elim (dec_lt t.sample_count (n + k * per)) [
          | yes c ↦ rw (fill_chunks_fault k per chunk n (omega (arith, end, h₁.0)) c h₃)
          | no c ↦
              let (xs, f) =
                fill_chunks_total k per chunk n (omega (arith, end, h₁.0)) (omega arith) in
              rw (
                f,
                fill_offsets_fault es e.first_chunk e.samples_per_chunk (chunk + k) (n + k * per)
                    h₁.1 (omega (arith, h₁.0)) (omega arith) (omega (arith, used)),
              )
        ])

  -- Tables with as many sizes and chunk offsets as they count, and chunks in order, whose chunks
  -- hold more samples than `sampleCount`, by a multiple of 2^32, pass the check of the count; with
  -- memory to be had, the build then reads or writes outside the arrays of `sampleCount` elements.
  pub build_track_overrun :
      (more : ℕ)
      → InOrder t.sample_to_chunk_entries t.chunk_count 1
      → 0 < t.sample_count
      → t.sample_count < 2 ^ 32
      → sum (plan t.sample_to_chunk_entries t.chunk_count 1 0)
        ≡ t.sample_count + 2 ^ 32 * (more + 1)
      → build_track true true t ≡ fault
  unfolding build_track
  build_track_overrun more h₁ h₂ h₃ h₄ =
      let count : count_samples t.sample_to_chunk_entries t.chunk_count 1 0 0 ≡ t.sample_count =
        count_samples-plan t.sample_to_chunk_entries t.chunk_count 1 0 0 few h₁ (omega arith)
        ∙ omega arith in
      let self : (t.sample_count == t.sample_count) ≡ true = ground arith in
      let nonzero : (t.sample_count == 0) ≡ false = ground arith in
      rw (
        count,
        self,
        nonzero,
        fill_offsets_fault t.sample_to_chunk_entries 1 0 0 0 h₁ (omega arith) (omega arith)
            (omega arith),
      )
