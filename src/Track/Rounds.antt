-- ===== src/Track/Rounds.antt =====
-- What it is to be the closest index of a range, and what a round of the nearest search keeps of it.
-- The search over `lo <= j < hi` found the first of the indices with `P` at the least distance `d`,
-- or there is no index with `P`.
use libmp.Prelude.{
  ℕ, ◌≤◌, Res, ◌<◌, ◌≡◌, Bool, ◌+◌, ok, true, ◌^◌, some, if◌then◌else◌, ◌-◌, arith, false, err,
  enoent, refl,
}
use libmp.Track.{Nearest, nearest_step, index_found, nearest_start}
use native.Mathlib.Decide.{ℕ_discrete, dec_lt}

pub data Closest (P : ℕ → Type 0) (d : ℕ → ℕ) (lo hi : ℕ) : Res ℕ → Type 0 where
  found :
      (m : ℕ)
      → lo ≤ m
      → m < hi
      → P m
      → ((j : ℕ) → lo ≤ j → j < hi → P j → d m ≤ d j)
      → ((j : ℕ) → lo ≤ j → j < m → P j → d m < d j)
      → Closest P d lo hi (ok m)
  missing : ((j : ℕ) → lo ≤ j → j < hi → ¬ P j) → Closest P d lo hi (err enoent)

-- The variables of the loop when it comes to index `i`: nothing that counts was seen, or the last
-- seen is as close as the closest, which is the first of its distance.
pub data Seen (P : ℕ → Type 0) (d : ℕ → ℕ) (lo i : ℕ) (s : Nearest) : Type 0 where
  none_yet : s ≡ nearest_start → ((j : ℕ) → lo ≤ j → j < i → ¬ P j) → Seen P d lo i s
  closing :
      (m : ℕ)
      → s.min_idx ≡ some m
      → s.min_delta ≡ d m
      → s.prev_delta ≡ d m
      → lo ≤ m
      → m < i
      → P m
      → ((j : ℕ) → lo ≤ j → j < i → P j → d m ≤ d j)
      → ((j : ℕ) → lo ≤ j → j < m → P j → d m < d j)
      → Seen P d lo i s

module _ {P : ℕ → Type 0} {d : ℕ → ℕ} (lo i : ℕ) (s : Nearest) where
  pub Seen-start : lo ≡ i → s ≡ nearest_start → Seen P d lo i s
  Seen-start h e = Seen.none_yet e (λ j h₁ h₂. absurd (omega arith))

  pub Seen-skip : ¬ P i → Seen P d lo i s → Seen P d lo (i + 1) s
  Seen-skip np (Seen.none_yet e q) =
      Seen.none_yet e
        (λ j h₁ h₂. elim (ℕ_discrete j i) [ yes c ↦ rw c np | no c ↦ q j h₁ (omega arith) ])
  Seen-skip np (Seen.closing m e e₁ e₂ h₁ h₂ p q r) =
      Seen.closing m e e₁ e₂ h₁ (omega arith) p
        (λ j k₁ k₂ pj. elim (ℕ_discrete j i) [
          | yes c ↦ absurd (np (rw c at pj))
          | no c ↦ q j k₁ (omega arith) pj
        ])
        r

  pub Seen-end : Seen P d lo i s → Closest P d lo i (index_found s.min_idx)
  Seen-end (Seen.none_yet e q) = rw e (Closest.missing q)
  Seen-end (Seen.closing m e e₁ e₂ h₁ h₂ p q r) = rw e (Closest.found m h₁ h₂ p q r)

-- One round of the loop, at an index whose distance is `di`.
module _ (i di : ℕ) (s : Nearest) where
  -- The first index that counts.
  step-none_yet :
      di < 2 ^ 64 - 1
      → s ≡ nearest_start
      → nearest_step s i di ≡ (record { min_idx = some i; min_delta = di; prev_delta = di }, true)
  unfolding nearest_step
  step-none_yet h e = ground arith

  module _ (m dm : ℕ) (e : s.min_idx ≡ some m) (e₁ : s.min_delta ≡ dm)
      (e₂ : s.prev_delta ≡ dm) where
    step-closer :
        di < dm
        → nearest_step s i di ≡ (record { min_idx = some i; min_delta = di; prev_delta = di }, true)
    unfolding nearest_step
    step-closer h = ground arith

    step-same :
        di ≡ dm
        → nearest_step s i di ≡ (record { min_idx = some m; min_delta = dm; prev_delta = dm }, true)
    unfolding nearest_step
    step-same h = ground arith

    step-farther : dm < di → nearest_step s i di ≡ (s, false)
    unfolding nearest_step
    step-farther h = ground arith

-- What a round leaves: the loop goes on with what it has seen, or it may stop.
pub data Round (P : ℕ → Type 0) (d : ℕ → ℕ) (lo i hi : ℕ) : Nearest × Bool → Type 0 where
  on : (s : Nearest) → Seen P d lo (i + 1) s → Round P d lo i hi (s, true)
  stop : (s : Nearest) → Closest P d lo hi (index_found s.min_idx) → Round P d lo i hi (s, false)

-- Two ways in which an index below `i + 1` stands to `i`.
upto :
    {P : ℕ → Type 0} (i : ℕ) (Q : ℕ → Type 0)
    → Q i
    → (lo : ℕ) → ((j : ℕ) → lo ≤ j → j < i → P j → Q j)
    → (j : ℕ) → lo ≤ j
    → j < i + 1
    → P j
    → Q j
upto i Q qi lo q j h₁ h₂ p = elim (ℕ_discrete j i) [
  | yes c ↦ rw c qi
  | no c ↦ q j h₁ (omega arith) p
]

module _ {P : ℕ → Type 0} {d : ℕ → ℕ} (lo i hi : ℕ) (p : P i) (below : lo ≤ i) (above : i < hi)
    (fits : d i < 2 ^ 64 - 1)
    (unimodal : (m j : ℕ) → m < i → d m < d i → i ≤ j → j < hi → d i ≤ d j) where
  after :
      (m : ℕ)
      → m < i
      → d m < d i
      → ((j : ℕ) → lo ≤ j → j < i → P j → d m ≤ d j)
      → (j : ℕ) → lo ≤ j
      → j < hi
      → P j
      → d m ≤ d j
  after m h f q j k₁ k₂ pj = elim (dec_lt j i) [
    | yes c ↦ q j k₁ c pj
    | no c ↦ omega (arith, unimodal m j h f (omega arith) k₂)
  ]

  pub Round-step : (s : Nearest) → Seen P d lo i s → Round P d lo i hi (nearest_step s i (d i))
  Round-step s (Seen.none_yet e q) = rw (step-none_yet i (d i) s fits e) (
      Round.on _ (
        Seen.closing i refl refl refl below (omega arith) p
          (upto i (λ j. d i ≤ d j) (omega arith) lo (λ j h₁ h₂ pj. absurd (q j h₁ h₂ pj)))
          (λ j h₁ h₂ pj. absurd (q j h₁ h₂ pj))))
  Round-step s (Seen.closing m e e₁ e₂ h₁ h₂ pm q r) = elim (dec_lt (d i) (d m)) [
    | yes c ↦ rw (step-closer i (d i) s m (d m) e e₁ e₂ c) (
        Round.on _ (
          Seen.closing i refl refl refl below (omega arith) p
            (upto i (λ j. d i ≤ d j) (omega arith) lo (λ j k₁ k₂ pj. omega (arith, q j k₁ k₂ pj)))
            (λ j k₁ k₂ pj. omega (arith, q j k₁ k₂ pj))))
    | no c ↦ elim (dec_lt (d m) (d i)) [
      | yes f ↦
          rw (step-farther i (d i) s m (d m) e e₁ e₂ f)
            (Round.stop s (rw e (Closest.found m h₁ (omega arith) pm (after m h₂ f q) r)))
      | no f ↦ rw (step-same i (d i) s m (d m) e e₁ e₂ (omega arith)) (
          Round.on _ (
            Seen.closing m refl refl refl h₁ (omega arith) pm
              (upto i (λ j. d m ≤ d j) (omega arith) lo q) r))
    ]
  ]

pub Round-loop :
    {P : ℕ → Type 0} {d : ℕ → ℕ} {lo i hi : ℕ} (q : Nearest × Bool) (loop : Nearest → Res Nearest)
    → Round P d lo i hi q
    → ((s : Nearest)
        → Seen P d lo (i + 1) s
        → (s' : Nearest) × (loop s ≡ ok s') × Closest P d lo hi (index_found s'.min_idx))
    → (s' : Nearest) × ((if q.1 then loop q.0 else ok q.0) ≡ ok s')
      × Closest P d lo hi (index_found s'.min_idx)
Round-loop q loop (Round.on s seen) go = go s seen
Round-loop q loop (Round.stop s c) go = (s, refl, c)
