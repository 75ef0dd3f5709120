-- ===== src/Track/Spec.antt =====
-- What it is to be the first or the last index of a range with a property, as answers of a search.
use libmp.Prelude.{
  ℕ, suc, ◌+◌, ◌≤◌, ◌<◌, ◌≡◌, ◌≢◌, inl, inr, Bool, true, Bool-cases, if◌then◌else◌, arith, Res, ok,
  err, fault, enoent,
}
use native.Mathlib.Decide.{ℕ_discrete}

-- The search over `lo <= j < hi` found the first index with `P`, or there is none.
pub data First (P : ℕ → Type 0) (lo hi : ℕ) : Res ℕ → Type 0 where
  found :
      (i : ℕ) → lo ≤ i → i < hi → P i → ((j : ℕ) → lo ≤ j → j < i → ¬ P j) → First P lo hi (ok i)
  missing : ((j : ℕ) → lo ≤ j → j < hi → ¬ P j) → First P lo hi (err enoent)

-- The search over `j < hi` found the last index with `P`, or there is none.
pub data Last (P : ℕ → Type 0) (hi : ℕ) : Res ℕ → Type 0 where
  found : (i : ℕ) → i < hi → P i → ((j : ℕ) → i < j → j < hi → ¬ P j) → Last P hi (ok i)
  missing : ((j : ℕ) → j < hi → ¬ P j) → Last P hi (err enoent)

module _ {P : ℕ → Type 0} where
  pub First-here : (lo hi : ℕ) → lo < hi → P lo → First P lo hi (ok lo)
  First-here lo hi h p = First.found lo (omega arith) h p (λ j h₁ h₂. absurd (omega arith))

  pub First-end : (lo hi : ℕ) → hi ≤ lo → First P lo hi (err enoent)
  First-end lo hi h = First.missing (λ j h₁ h₂. absurd (omega arith))

  -- No index from `lo` on but `lo` itself, and that has not got the property.
  skip :
      (lo n : ℕ)
      → ¬ P lo
      → ((j : ℕ) → lo + 1 ≤ j → j < n → ¬ P j)
      → (j : ℕ) → lo ≤ j
      → j < n
      → ¬ P j
  skip lo n np h j h₁ h₂ = elim (ℕ_discrete j lo) [ yes e ↦ rw e np | no ne ↦ h j (omega arith) h₂ ]

  pub First-skip : (lo hi : ℕ) (r : Res ℕ) → ¬ P lo → First P (lo + 1) hi r → First P lo hi r
  First-skip lo hi r np (First.found i h₁ h₂ p q) =
      First.found i (omega arith) h₂ p (skip lo i np q)
  First-skip lo hi r np (First.missing q) = First.missing (skip lo hi np q)

  pub Last-here : (n : ℕ) → P n → Last P (suc n) (ok n)
  Last-here n p = Last.found n (omega arith) p (λ j h₁ h₂. absurd (omega arith))

  below :
      (n : ℕ)
      → ¬ P n
      → (m : ℕ) → ((j : ℕ) → m ≤ j → j < n → ¬ P j)
      → (j : ℕ) → m ≤ j
      → j < suc n
      → ¬ P j
  below n np m h j h₁ h₂ = elim (ℕ_discrete j n) [ yes e ↦ rw e np | no ne ↦ h j h₁ (omega arith) ]

  pub Last-skip : (n : ℕ) (r : Res ℕ) → ¬ P n → Last P n r → Last P (suc n) r
  Last-skip n r np (Last.found i h p q) =
      Last.found i (omega arith) p (λ j h₁ h₂. below n np (suc i) q j h₁ h₂)
  Last-skip n r np (Last.missing q) =
      Last.missing (λ j h. below n np 0 (λ k h₁ h₂. q k h₂) j (omega arith) h)

-- One round of an upward or downward search, whose tests computed to `b` and `s`.
module _ {P : ℕ → Type 0} (b s : Bool) where
  pub First-round :
      (lo hi : ℕ) (rest : Res ℕ)
      → lo < hi
      → (b ≡ true → s ≡ true → P lo)
      → (P lo → (b ≡ true) × (s ≡ true))
      → First P (lo + 1) hi rest
      → First P lo hi (if b then (if s then ok lo else rest) else rest)
  First-round lo hi rest h yea only next = elim (Bool-cases b) [
    | inr p ↦ rw p (First-skip lo hi rest (λ q. cc (p, (only q).0)) next)
    | inl p ↦ elim (Bool-cases s) [
      | inr r ↦ rw (p, r) (First-skip lo hi rest (λ q. cc (r, (only q).1)) next)
      | inl r ↦ rw (p, r) (First-here lo hi h (yea p r))
    ]
  ]

  pub Last-round :
      (n : ℕ) (rest : Res ℕ)
      → (b ≡ true → s ≡ true → P n)
      → (P n → (b ≡ true) × (s ≡ true))
      → Last P n rest
      → Last P (suc n) (if b then (if s then ok n else rest) else rest)
  Last-round n rest yea only next = elim (Bool-cases b) [
    | inr p ↦ rw p (Last-skip n rest (λ q. cc (p, (only q).0)) next)
    | inl p ↦ elim (Bool-cases s) [
      | inr r ↦ rw (p, r) (Last-skip n rest (λ q. cc (r, (only q).1)) next)
      | inl r ↦ rw (p, r) (Last-here n (yea p r))
    ]
  ]

-- A search that answers in one of these ways reads no array out of range.
pub First-ne-fault : {P : ℕ → Type 0} {lo hi : ℕ} {r : Res ℕ} → First P lo hi r → r ≢ fault
First-ne-fault (First.found i _ _ _ _) = λ e. cc
First-ne-fault (First.missing _) = λ e. cc

pub Last-ne-fault : {P : ℕ → Type 0} {hi : ℕ} {r : Res ℕ} → Last P hi r → r ≢ fault
Last-ne-fault (Last.found i _ _ _) = λ e. cc
Last-ne-fault (Last.missing _) = λ e. cc
