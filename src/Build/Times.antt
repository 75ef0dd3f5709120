-- ===== src/Build/Times.antt =====
-- The decoding times: what the time-to-sample table means, and that the loop computes it.
use libmp.Build.{fill_entry, fill_times}
use libmp.Prelude.{
  ℕ, List, ◌≤◌, ◌<◌, ◌+◌, length, [], ◌^◌, ◌*◌, suc, ◌∷◌, ◌≡◌, get_or, arith, zero, length-append,
  ok, ◌++◌, err, ap, refl, eoverflow,
}
use libmp.Types.{TimeToSampleEntry}
use native.Mathlib.Decide.{dec_lt}

-- `j` times from `ts` on, `delta` apart.
abbrev pub ramp : ℕ → ℕ → ℕ → List ℕ
ramp zero delta ts = []
ramp (suc j) delta ts = ts ∷ ramp j delta (ts + delta)

-- The times that a table means, from `ts` on, and how many samples and how much time it covers.
abbrev pub decode : List TimeToSampleEntry → ℕ → List ℕ
decode [] ts = []
decode (e ∷ es) ts =
    ramp e.sample_count e.sample_delta ts ++ decode es (ts + e.sample_count * e.sample_delta)

abbrev pub total_count : List TimeToSampleEntry → ℕ
total_count [] = 0
total_count (e ∷ es) = e.sample_count + total_count es

abbrev pub total_time : List TimeToSampleEntry → ℕ
total_time [] = 0
total_time (e ∷ es) = e.sample_count * e.sample_delta + total_time es

fill_entry-ramp :
    (j delta ts k n : ℕ)
    → k + j ≤ n
    → ts + j * delta < 2 ^ 64
    → fill_entry j delta ts k n ≡ ok (ramp j delta ts, ts + j * delta, k + j)
unfolding fill_entry
fill_entry-ramp zero delta ts k n h₁ h₂ = ground arith
fill_entry-ramp (suc j) delta ts k n h₁ h₂ =
    ground (arith, fill_entry-ramp j delta (ts + delta) (k + 1) n)

-- A table that has room for its samples, and whose time fits 64 bits, is decoded as it is meant.
pub fill_times-decode :
    (es : List TimeToSampleEntry) (ts k n : ℕ)
    → k + total_count es ≤ n
    → ts + total_time es < 2 ^ 64
    → fill_times es ts k n ≡ ok (decode es ts)
unfolding fill_times
fill_times-decode [] ts k n h₁ h₂ = refl
fill_times-decode (e ∷ es) ts k n h₁ h₂ = ground (
  arith,
  fill_entry-ramp e.sample_count e.sample_delta ts k n,
  fill_times-decode es (ts + e.sample_count * e.sample_delta) (k + e.sample_count) n,
)

fill_entry-overflow :
    (j delta ts k n : ℕ)
    → k + j ≤ n
    → ts < 2 ^ 64
    → 2 ^ 64 ≤ ts + j * delta
    → fill_entry j delta ts k n ≡ err eoverflow
unfolding fill_entry
fill_entry-overflow zero delta ts k n h₁ h₂ h₃ = absurd (omega arith)
fill_entry-overflow (suc j) delta ts k n h₁ h₂ h₃ =
    ground (arith, fill_entry-overflow j delta (ts + delta) (k + 1) n)

pub fill_times-overflow :
    (es : List TimeToSampleEntry) (ts k n : ℕ)
    → k + total_count es ≤ n
    → ts < 2 ^ 64
    → 2 ^ 64 ≤ ts + total_time es
    → fill_times es ts k n ≡ err eoverflow
unfolding fill_times
fill_times-overflow [] ts k n h₁ h₂ h₃ = absurd (omega arith)
fill_times-overflow (e ∷ es) ts k n h₁ h₂ h₃ =
    elim (dec_lt (ts + e.sample_count * e.sample_delta) (2 ^ 64)) [
      | yes c ↦ ground (
        arith,
        fill_entry-ramp e.sample_count e.sample_delta ts k n,
        fill_times-overflow es (ts + e.sample_count * e.sample_delta) (k + e.sample_count) n,
      )
      | no c ↦ ground (arith, fill_entry-overflow e.sample_count e.sample_delta ts k n)
    ]

length-ramp : (j delta ts : ℕ) → length (ramp j delta ts) ≡ j
length-ramp zero delta ts = refl
length-ramp (suc j) delta ts = ap suc (length-ramp j delta (ts + delta))

pub length-decode : (es : List TimeToSampleEntry) (ts : ℕ) → length (decode es ts) ≡ total_count es
length-decode [] ts = refl
length-decode (e ∷ es) ts = omega (
  arith,
  length-append (ramp e.sample_count e.sample_delta ts)
      (decode es (ts + e.sample_count * e.sample_delta)),
  length-ramp e.sample_count e.sample_delta ts,
  length-decode es (ts + e.sample_count * e.sample_delta),
)

-- The elements do not fall, and lie between `lo` and `hi`.
abbrev pub Rising : ℕ → ℕ → List ℕ → Type 0
Rising lo hi [] = lo ≤ hi
Rising lo hi (x ∷ xs) = (lo ≤ x) × Rising x hi xs

Rising-le : (xs : List ℕ) (lo lo' hi : ℕ) → lo' ≤ lo → Rising lo hi xs → Rising lo' hi xs
Rising-le [] lo lo' hi h r = omega arith
Rising-le (x ∷ xs) lo lo' hi h (r₁, r₂) = (omega arith, r₂)

Rising-ramp :
    (j delta ts hi : ℕ) (rest : List ℕ)
    → Rising (ts + j * delta) hi rest
    → Rising ts hi (ramp j delta ts ++ rest)
Rising-ramp zero delta ts hi rest r = Rising-le rest _ _ hi (omega arith) r
Rising-ramp (suc j) delta ts hi rest r = (
  omega arith,
  Rising-le (ramp j delta (ts + delta) ++ rest) _ _ hi (omega arith)
      (Rising-ramp j delta (ts + delta) hi rest (Rising-le rest _ _ hi (omega arith) r)),
)

pub Rising-decode :
    (es : List TimeToSampleEntry) (ts : ℕ) → Rising ts (ts + total_time es) (decode es ts)
Rising-decode [] ts = omega arith
Rising-decode (e ∷ es) ts =
    let next = ts + e.sample_count * e.sample_delta in
    let same : next + total_time es ≡ ts + total_time (e ∷ es) = omega arith in
    Rising-ramp e.sample_count e.sample_delta ts (ts + total_time (e ∷ es)) (decode es next)
      (rw same at (Rising-decode es next))

get_or-le : (xs : List ℕ) (lo hi i : ℕ) → i < length xs → Rising lo hi xs → lo ≤ get_or xs i 0
get_or-le [] lo hi i h r = absurd (omega arith)
get_or-le (x ∷ xs) lo hi zero h r = r.0
get_or-le (x ∷ xs) lo hi (suc i) h r = omega (arith, get_or-le xs x hi i (omega arith) r.1)

pub Rising-get_or :
    (xs : List ℕ) (lo hi i j : ℕ)
    → i ≤ j
    → j < length xs
    → Rising lo hi xs
    → get_or xs i 0 ≤ get_or xs j 0
Rising-get_or [] lo hi i j h₁ h₂ r = absurd (omega arith)
Rising-get_or (x ∷ xs) lo hi zero zero h₁ h₂ r = omega arith
Rising-get_or (x ∷ xs) lo hi zero (suc j) h₁ h₂ r = get_or-le xs x hi j (omega arith) r.1
Rising-get_or (x ∷ xs) lo hi (suc i) zero h₁ h₂ r = absurd (omega arith)
Rising-get_or (x ∷ xs) lo hi (suc i) (suc j) h₁ h₂ r =
    Rising-get_or xs x hi i j (omega arith) (omega arith) r.1

Rising-end : (xs : List ℕ) (lo hi : ℕ) → Rising lo hi xs → lo ≤ hi
Rising-end [] lo hi r = r
Rising-end (x ∷ xs) lo hi r = omega (arith, Rising-end xs x hi r.1)

pub get_or-le_end :
    (xs : List ℕ) (lo hi i : ℕ) → i < length xs → Rising lo hi xs → get_or xs i 0 ≤ hi
get_or-le_end [] lo hi i h r = absurd (omega arith)
get_or-le_end (x ∷ xs) lo hi zero h r = Rising-end xs x hi r.1
get_or-le_end (x ∷ xs) lo hi (suc i) h r = get_or-le_end xs x hi i (omega arith) r.1
