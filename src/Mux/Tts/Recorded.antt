-- ===== src/Mux/Tts/Recorded.antt =====
-- What the loop of `mp4_mux_track_compute_tts` has recorded, and that a round keeps it.
use libmp.Mux.Tts.{Tts, record_diff, push_entry, bump_last}
use libmp.Time.{convert_timescale}
use libmp.Prelude.{
  ℕ, Bool, ◌<◌, List, ◌≡◌, ◌+◌, ok, true, Bool-cases, ◌^◌, ◌==◌, length, ◌++◌, inl, ◌-◌, inr, ◌∷◌,
  ◌≤◌, [], arith, false, ◌⊎◌, add64, ◌*◌, length-append, ◌%◌, ◌/◌, ==_iff,
}
use libmp.Build.Times.{decode, total_time, total_count}
use libmp.Mux.{Table}
use libmp.Types.{TimeToSampleEntry}
use libmp.Mux.Grow.{grow_tts, grow_enough}
use libmp.Mux.Tts.Covers.{
  one, totals-push, HasLast, decode-push, HasLast-push, totals-bump_last, decode-bump_last,
}

-- What the loop has recorded when `seen` are the times before the current one.
pub record Recorded (first : ℕ) (seen : List ℕ) (s : Tts) : Type 0 where
  pub means : decode s.table.entries first ≡ seen
  pub reaches : first + total_time s.table.entries ≡ s.prev_dts
  pub counts : total_count s.table.entries ≡ length seen
  pub short : length s.table.entries ≤ length seen
  pub last : (s.prev_diff ≡ 2 ^ 32 - 1) ⊎ HasLast s.table.entries s.prev_diff
  pub lasts : s.duration + first ≡ s.prev_dts
  pub fits : s.prev_dts < 2 ^ 64

pub convert_total :
    (time src dest : ℕ) → 0 < src → (r : ℕ) × (convert_timescale time src dest ≡ ok r)
unfolding convert_timescale
convert_total time src dest h = elim (Bool-cases (src == dest)) [
  | inl same ↦ (time, rw same)
  | inr other ↦
      let positive : (src == 0) ≡ false = ground arith in
      (add64 (time * dest % 2 ^ 64) (src / 2) / src, rw (other, positive))
]

module _ (realloc : ℕ → Bool) (room : (n : ℕ) → realloc n ≡ true) where
  pub push_entry_total :
      (table : Table TimeToSampleEntry) (delta : ℕ)
      → length table.entries + 1 + 128 ≤ 2 ^ 32
      → (capacity : ℕ) × (push_entry realloc table delta
          ≡ ok (record { entries = table.entries ++ (one delta ∷ []); capacity = capacity }))
  unfolding push_entry grow_tts
  push_entry_total table delta h =
      let (next, e, _, _, _) =
        grow_enough (λ n. realloc (n * 8)) (length table.entries) table.capacity 1
          (λ n. room (n * 8)) h in
      (next, rw e)

  -- A table after one more difference: it means one more time, the one reached before.
  abbrev pub Extended : ℕ → Tts → ℕ → Table TimeToSampleEntry → Type 0
  Extended first s diff table =
      (decode table.entries first
        ≡ decode s.table.entries first ++ ((first + total_time s.table.entries) ∷ []))
      × (total_time table.entries ≡ total_time s.table.entries + diff)
      × (total_count table.entries ≡ total_count s.table.entries + 1)
      × (length table.entries ≤ length s.table.entries + 1)
      × HasLast table.entries diff

  pub record_diff_total :
      (first diff : ℕ) (seen : List ℕ) (s : Tts)
      → Recorded first seen s
      → diff < 2 ^ 32 - 1
      → length seen + 130 ≤ 2 ^ 32
      → (table : Table TimeToSampleEntry) × (record_diff realloc s diff ≡ ok table)
        × Extended first s diff table
  unfolding record_diff
  record_diff_total first diff seen s r h₁ h₂ = elim (Bool-cases (diff == s.prev_diff)) [
    | inr other ↦
        let (capacity, e) = push_entry_total s.table diff (omega (arith, r.short)) in
        let es = s.table.entries in
        let (p, q) = totals-push es diff in
        (
          record { entries = es ++ (one diff ∷ []); capacity = capacity },
          rw other e,
          (
            decode-push es diff first,
            p,
            q,
            omega (arith, length-append es (one diff ∷ [])),
            HasLast-push es diff,
          ),
        )
    | inl same ↦
        let e : diff ≡ s.prev_diff = (==_iff _ _).0 same in
        let es = s.table.entries in
        elim r.last [
          | inl none_yet ↦ absurd (omega (arith, e, none_yet))
          | inr has ↦
              let has' : HasLast es diff = rw e has in
              let (p, q, l, k) = totals-bump_last es diff has' (omega (arith, r.counts)) in
              (
                record s.table { entries = bump_last es },
                rw same,
                (
                  decode-bump_last es diff first has' (omega (arith, r.counts)),
                  p,
                  q,
                  omega (arith, l),
                  k,
                ),
              )
        ]
  ]
