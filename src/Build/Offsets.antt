-- ===== src/Build/Offsets.antt =====
-- The sample offsets: what the sample-to-chunk table means, and that the loops compute it.
use libmp.Prelude.{
  List, ℕ, ◌≤◌, [], ◌∷◌, suc, ◌≡◌, sum, ◌+◌, get_or, replicate, length, zero, ◌-◌, ◌++◌,
  length-replicate, refl, length-append, arith, ap, ◌<◌, ◌*◌, ◌^◌, ok, All, add64, add32,
  All-get_or, lt→ltb, sub32, sum-replicate, sum-append,
}
use libmp.Types.{SampleToChunkEntry}
use libmp.Track.{Track}
use mathlib.Core.List.{append_assoc}
use libmp.Build.{fill_chunk, fill_chunks, fill_offsets}
use libmp.Track.Valid.{read_at-in}

-- Samples `n`, `n + 1`, ... of a chunk, `k` of them, one after the other from `addr` on.
abbrev pub lay_chunk : List ℕ → ℕ → ℕ → ℕ → List ℕ
lay_chunk sizes zero n addr = []
lay_chunk sizes (suc k) n addr = addr ∷ lay_chunk sizes k (n + 1) (addr + get_or sizes n 0)

-- The chunks from `chunk` on, where `plan` tells how many samples each has. Each starts at its own offset.
abbrev pub lay_chunks : List ℕ → List ℕ → List ℕ → ℕ → ℕ → List ℕ
lay_chunks sizes bases [] chunk n = []
lay_chunks sizes bases (per ∷ plan) chunk n =
    lay_chunk sizes per n (get_or bases chunk 0)
    ++ lay_chunks sizes bases plan (chunk + 1) (n + per)

-- How many samples each chunk has: those from `first` up to the next entry have `per`, and those
-- of the last entry go up to the last chunk.
abbrev pub plan : List SampleToChunkEntry → ℕ → ℕ → ℕ → List ℕ
plan [] chunks first per = replicate (chunks + 1 - first) per
plan (e ∷ es) chunks first per =
    replicate (e.first_chunk - first) per ++ plan es chunks e.first_chunk e.samples_per_chunk

-- The entries' chunks do not fall, and stay within the chunks that there are.
abbrev pub InOrder : List SampleToChunkEntry → ℕ → ℕ → Type 0
InOrder [] chunks first = first ≤ chunks + 1
InOrder (e ∷ es) chunks first = (first ≤ e.first_chunk) × InOrder es chunks e.first_chunk

-- The sizes of `k` samples from `n` on.
abbrev span : List ℕ → ℕ → ℕ → ℕ
span sizes zero n = 0
span sizes (suc k) n = get_or sizes n 0 + span sizes k (n + 1)

span-cons : (x : ℕ) (xs : List ℕ) (k n : ℕ) → span (x ∷ xs) k (suc n) ≡ span xs k n
span-cons x xs zero n = refl
span-cons x xs (suc k) n =
    let e : suc n + 1 ≡ suc (n + 1) = omega arith in
    rw e (ap (λ m. get_or xs n 0 + m) (span-cons x xs k (n + 1)))

span-nil : (k n : ℕ) → span [] k n ≡ 0
span-nil zero n = refl
span-nil (suc k) n = omega (arith, span-nil k (n + 1))

span-le-sum : (xs : List ℕ) (k n : ℕ) → span xs k n ≤ sum xs
span-le-sum [] k n = omega (arith, span-nil k n)
span-le-sum (x ∷ xs) k (suc n) = rw span-cons (omega (arith, span-le-sum xs k n))
span-le-sum (x ∷ xs) zero zero = omega arith
span-le-sum (x ∷ xs) (suc k) zero =
    let e : span (x ∷ xs) k (0 + 1) ≡ span xs k 0 = span-cons x xs k 0 in
    rw e (omega (arith, span-le-sum xs k 0))

pub InOrder-le :
    (es : List SampleToChunkEntry) (chunks first : ℕ) → InOrder es chunks first → first ≤ chunks + 1
InOrder-le [] chunks first h = h
InOrder-le (e ∷ es) chunks first h = omega (arith, InOrder-le es chunks e.first_chunk h.1)

length-plan :
    (es : List SampleToChunkEntry) (chunks first per : ℕ)
    → InOrder es chunks first
    → length (plan es chunks first per) ≡ chunks + 1 - first
length-plan [] chunks first per h = length-replicate (chunks + 1 - first) per
length-plan (e ∷ es) chunks first per h = rw length-append (
    omega (
      arith,
      length-replicate (e.first_chunk - first) per,
      length-plan es chunks e.first_chunk e.samples_per_chunk h.1,
      InOrder-le es chunks e.first_chunk h.1,
      h.0,
    ))

lay_chunks-append :
    (sizes bases ps qs : List ℕ) (chunk n : ℕ)
    → lay_chunks sizes bases (ps ++ qs) chunk n
      ≡ lay_chunks sizes bases ps chunk n
        ++ lay_chunks sizes bases qs (chunk + length ps) (n + sum ps)
lay_chunks-append sizes bases [] qs chunk n =
    let e : chunk + 0 ≡ chunk = omega arith in let f : n + 0 ≡ n = omega arith in rw (e, f)
lay_chunks-append sizes bases (p ∷ ps) qs chunk n =
    let e : chunk + 1 + length ps ≡ chunk + suc (length ps) = omega arith in
    let f : n + p + sum ps ≡ n + (p + sum ps) = omega arith in
    rw (lay_chunks-append sizes bases ps qs (chunk + 1) (n + p), e, f) (rw append_assoc)

-- A track with room for its samples, and all of whose samples end below 2^64.
pub record HasRoom (t : Track) : Type 0 where
  pub sized : length t.sample_size ≡ t.sample_count
  pub based : length t.chunk_offset ≡ t.chunk_count
  pub few : t.chunk_count + 1 < 2 ^ 32
  pub fits : All (λ base. base + sum t.sample_size < 2 ^ 64) t.chunk_offset

module _ (t : Track) (v : HasRoom t) where
  fill_chunk-lay :
      (k chunk offset n : ℕ)
      → chunk < t.chunk_count
      → n + k ≤ t.sample_count
      → get_or t.chunk_offset chunk 0 + offset + span t.sample_size k n < 2 ^ 64
      → fill_chunk k t chunk offset n
        ≡ ok (lay_chunk t.sample_size k n (get_or t.chunk_offset chunk 0 + offset))
  unfolding fill_chunk
  fill_chunk-lay zero chunk offset n h₁ h₂ h₃ = refl
  fill_chunk-lay (suc k) chunk offset n h₁ h₂ h₃ =
      let base = get_or t.chunk_offset chunk 0 in
      let size = get_or t.sample_size n 0 in
      let e : add64 offset size ≡ offset + size = omega arith in
      let f : add64 base offset ≡ base + offset = omega arith in
      let g : base + (offset + size) ≡ base + offset + size = omega arith in
      rw (
        read_at-in t.chunk_offset chunk 0 (omega (arith, v.based)),
        read_at-in t.sample_size n 0 (omega (arith, v.sized)),
        lt→ltb n t.sample_count (omega arith),
        e,
        f,
        fill_chunk-lay k chunk (offset + size) (n + 1) h₁ (omega arith) (omega arith),
        g,
      )

  fill_chunks-lay :
      (j per chunk n : ℕ)
      → chunk + j ≤ t.chunk_count
      → n + j * per ≤ t.sample_count
      → fill_chunks j t per chunk n
        ≡ ok (lay_chunks t.sample_size t.chunk_offset (replicate j per) chunk n)
  unfolding fill_chunks
  fill_chunks-lay zero per chunk n h₁ h₂ = refl
  fill_chunks-lay (suc j) per chunk n h₁ h₂ =
      let base = get_or t.chunk_offset chunk 0 in
      let e : add32 chunk 1 ≡ chunk + 1 = omega (arith, v.few) in
      let f : base + 0 ≡ base = omega arith in
      rw (
        fill_chunk-lay per chunk 0 n (omega arith) (omega arith) (
            omega (
              arith,
              span-le-sum t.sample_size per n,
              All-get_or (λ b. b + sum t.sample_size < 2 ^ 64) t.chunk_offset chunk 0 v.fits
                  (omega (arith, v.based)),
            )),
        e,
        f,
        fill_chunks-lay j per (chunk + 1) (n + per) (omega arith) (omega arith),
      )

  -- The tables of a track with room give the offsets that the plan means, and the loops read and
  -- write nothing out of range.
  pub fill_offsets-lay :
      (es : List SampleToChunkEntry) (first per chunk n : ℕ)
      → InOrder es t.chunk_count first
      → chunk + 1 ≡ first
      → n + sum (plan es t.chunk_count first per) ≤ t.sample_count
      → fill_offsets es t first per chunk n
        ≡ ok (lay_chunks t.sample_size t.chunk_offset (plan es t.chunk_count first per) chunk n)
  unfolding fill_offsets
  fill_offsets-lay [] first per chunk n h₁ h₂ h₃ =
      let left : add32 (sub32 t.chunk_count first) 1 ≡ t.chunk_count + 1 - first =
        omega (arith, v.few) in
      rw left (
        fill_chunks-lay (t.chunk_count + 1 - first) per chunk n (omega arith)
          (omega (arith, sum-replicate (t.chunk_count + 1 - first) per)))
  fill_offsets-lay (e ∷ es) first per chunk n h₁ h₂ h₃ =
      let k = e.first_chunk - first in
      let later = plan es t.chunk_count e.first_chunk e.samples_per_chunk in
      let end = InOrder-le es t.chunk_count e.first_chunk h₁.1 in
      let gap : sub32 e.first_chunk first ≡ k = omega (arith, v.few, end, h₁.0) in
      let next : add32 chunk k ≡ chunk + k = omega (arith, v.few, end, h₁.0) in
      let used : sum (replicate k per ++ later) ≡ k * per + sum later =
        omega (arith, sum-append (replicate k per) later, sum-replicate k per) in
      rw (gap, next, fill_chunks-lay k per chunk n (omega (arith, end, h₁.0)) (omega (arith, used)))
        (rw
          (fill_offsets-lay es e.first_chunk e.samples_per_chunk (chunk + k) (n + k * per) h₁.1
            (omega (arith, h₁.0)) (omega (arith, used)))
          (rw (lay_chunks-append, length-replicate, sum-replicate)))

length-lay_chunk : (sizes : List ℕ) (k n addr : ℕ) → length (lay_chunk sizes k n addr) ≡ k
length-lay_chunk sizes zero n addr = refl
length-lay_chunk sizes (suc k) n addr =
    ap suc (length-lay_chunk sizes k (n + 1) (addr + get_or sizes n 0))

pub length-lay_chunks :
    (sizes bases ps : List ℕ) (chunk n : ℕ) → length (lay_chunks sizes bases ps chunk n) ≡ sum ps
length-lay_chunks sizes bases [] chunk n = refl
length-lay_chunks sizes bases (p ∷ ps) chunk n =
    rw (length-append, length-lay_chunk, length-lay_chunks sizes bases ps (chunk + 1) (n + p))
