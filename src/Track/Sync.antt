-- ===== src/Track/Sync.antt =====
-- `mp4_track_is_sync_sample` over a table of sync samples in increasing order.
use libmp.Prelude.{
  List, ℕ, Bool, ◌≤◌, Option, length, ◌+◌, ◌≡◌, ◌<◌, get_or, ok, none, true, false, ◌^◌, suc, arith,
  some, sub32, ◌-◌, Bool-cases, ◌==◌, inl, ==_iff, inr, ltb, ltb→lt, zero, refl,
}
use libmp.Track.{sync_loop, is_sync_sample, Track}
use libmp.Track.Valid.{read_at-in}
use native.Mathlib.Decide.{dec_lt}

-- The entries count samples from 1 on, in increasing order, and fit a uint32_t.
pub record IsSyncTable (n : ℕ) (es : List ℕ) : Type 0 where
  pub held : n ≤ length es
  pub rising : (i j : ℕ) → i < j → j < n → get_or es i 0 < get_or es j 0
  pub positive : (i : ℕ) → i < n → 0 < get_or es i 0
  pub small : (i : ℕ) → i < n → get_or es i 0 < 2 ^ 32

-- What the table says of sample `idx`: it is in the table; all entries are later; or entry `j`, for
-- sample `p`, is the last one before it.
pub data SyncAnswer (n : ℕ) (es : List ℕ) (idx : ℕ) : Bool × Option ℕ → Type 0 where
  sync : (j : ℕ) → j < n → get_or es j 0 ≡ idx + 1 → SyncAnswer n es idx (true, none)
  all_later : ((j : ℕ) → j < n → idx + 1 < get_or es j 0) → SyncAnswer n es idx (false, none)
  last_before :
      (j p : ℕ)
      → j < n
      → get_or es j 0 ≡ p + 1
      → p < idx
      → ((k : ℕ) → j < k → k < n → idx + 1 < get_or es k 0)
      → SyncAnswer n es idx (false, some p)

-- What the loop has kept of the entries before `i`.
data Passed (es : List ℕ) (idx i : ℕ) : Option ℕ → Type 0 where
  start : i ≡ 0 → Passed es idx i none
  entry : (j p : ℕ) → i ≡ suc j → get_or es j 0 ≡ p + 1 → p < idx → Passed es idx i (some p)

module _ (n : ℕ) (es : List ℕ) (s : IsSyncTable n es) (idx : ℕ) where
  -- All entries from `i` on are later than the sample.
  Passed-stop :
      (i : ℕ) {last : Option ℕ}
      → ((k : ℕ) → i ≤ k → k < n → idx + 1 < get_or es k 0)
      → i ≤ n
      → Passed es idx i last
      → SyncAnswer n es idx (false, last)
  Passed-stop i later h (Passed.start e) = SyncAnswer.all_later (λ j k. later j (omega arith) k)
  Passed-stop i later h (Passed.entry j p e₁ e₂ l) =
      SyncAnswer.last_before j p (omega arith) e₂ l (λ k h₁ h₂. later k (omega arith) h₂)

  from_here : (i : ℕ) → idx < get_or es i 0 - 1 → (k : ℕ) → i ≤ k → k < n → idx + 1 < get_or es k 0
  from_here i l k h₁ h₂ = elim (dec_lt i k) [
    | yes c ↦ omega (arith, s.rising i k c h₂)
    | no c ↦ let e : k ≡ i = omega arith in rw e (omega arith)
  ]

  sync_loop-SyncAnswer :
      (k i : ℕ) (last : Option ℕ)
      → i + k ≡ n
      → Passed es idx i last
      → (r : Bool × Option ℕ) × (sync_loop k es i idx last ≡ ok r) × SyncAnswer n es idx r
  unfolding sync_loop
  sync_loop-SyncAnswer zero i last h p =
      ((false, last), refl, Passed-stop i (λ j h₁ h₂. absurd (omega arith)) (omega arith) p)
  sync_loop-SyncAnswer (suc k) i last h p =
      let e = get_or es i 0 in
      let lower : sub32 e 1 ≡ e - 1 =
        omega (arith, s.positive i (omega arith), s.small i (omega arith)) in
      rw (read_at-in es i 0 (omega (arith, s.held)), lower)
        (elim (Bool-cases (e - 1 == idx)) [
          | inl q ↦ rw q (
            (true, none),
            refl,
            SyncAnswer.sync i (omega arith)
                (omega (arith, (==_iff (e - 1) idx).0 q, s.positive i (omega arith))),
          )
          | inr q ↦ rw q (elim (Bool-cases (ltb idx (e - 1))) [
            | inl l ↦
                rw l
                  ((false, last), refl, Passed-stop i (from_here i (ltb→lt _ _ l)) (omega arith) p)
            | inr l ↦ rw l (
                sync_loop-SyncAnswer k (i + 1) (some (e - 1)) (omega arith) (
                  Passed.entry i (e - 1) (omega arith) (omega (arith, s.positive i (omega arith)))
                    (ground (arith, q, l))))
          ])
        ])

-- For a track with an increasing table of sync samples `mp4_track_is_sync_sample` answers 1 exactly
-- for a sample of the table. For any other it answers 0, and tells the last sync sample before it,
-- if there is one. It reads no entry out of range.
pub is_sync_sample-SyncAnswer :
    (t : Track) (es : List ℕ) (idx : ℕ)
    → t.sync_sample_entries ≡ some es
    → IsSyncTable t.sync_sample_entry_count es
    → (r : Bool × Option ℕ) × (is_sync_sample t idx ≡ ok r)
      × SyncAnswer t.sync_sample_entry_count es idx r
unfolding is_sync_sample
is_sync_sample-SyncAnswer t es idx e s = rw e (
    sync_loop-SyncAnswer t.sync_sample_entry_count es s idx t.sync_sample_entry_count 0 none
      (omega arith) (Passed.start refl))
