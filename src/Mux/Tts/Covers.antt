-- ===== src/Mux/Tts/Covers.antt =====
-- How an entry that is added, or a last entry that counts one sample more, changes the times that
-- a time-to-sample table means.
use libmp.Prelude.{
  ℕ, List, suc, ◌++◌, ◌∷◌, ◌≡◌, ◌+◌, [], ap, refl, ◌<◌, ◌*◌, arith, zero, ◌^◌, add32, length, ◌∙◌,
  sym,
}
use libmp.Mux.Tts.{bump_last}
use libmp.Types.{TimeToSampleEntry}
use libmp.Build.Times.{ramp, total_time, decode, total_count}
use mathlib.Core.List.{append_assoc, append-nil}

abbrev pub one : ℕ → TimeToSampleEntry
one delta = record { sample_count = 1; sample_delta = delta }

-- The last entry of the table has the delta.
abbrev pub HasLast : List TimeToSampleEntry → ℕ → Type 0
HasLast [] delta = ⊥
HasLast (e ∷ []) delta = e.sample_delta ≡ delta
HasLast (e ∷ e' ∷ es) delta = HasLast (e' ∷ es) delta

pub HasLast-push :
    (es : List TimeToSampleEntry) (delta : ℕ) → HasLast (es ++ (one delta ∷ [])) delta
HasLast-push [] delta = refl
HasLast-push (e ∷ []) delta = refl
HasLast-push (e ∷ e' ∷ es) delta = HasLast-push (e' ∷ es) delta

pub decode-push :
    (es : List TimeToSampleEntry) (delta ts : ℕ)
    → decode (es ++ (one delta ∷ [])) ts ≡ decode es ts ++ ((ts + total_time es) ∷ [])
decode-push [] delta ts = ap (λ x. x ∷ []) (omega arith)
decode-push (e ∷ es) delta ts =
    let next = ts + e.sample_count * e.sample_delta in
    let same : next + total_time es ≡ ts + (e.sample_count * e.sample_delta + total_time es) =
      omega arith in
    rw (decode-push es delta next, same, append_assoc)

pub totals-push :
    (es : List TimeToSampleEntry) (delta : ℕ)
    → (total_time (es ++ (one delta ∷ [])) ≡ total_time es + delta)
      × (total_count (es ++ (one delta ∷ [])) ≡ total_count es + 1)
totals-push [] delta = (omega arith, omega arith)
totals-push (e ∷ es) delta = let (p, q) = totals-push es delta in (omega arith, omega arith)

ramp-suc : (j delta ts : ℕ) → ramp (suc j) delta ts ≡ ramp j delta ts ++ ((ts + j * delta) ∷ [])
ramp-suc zero delta ts = ap (λ x. x ∷ []) (omega arith)
ramp-suc (suc j) delta ts =
    let same : ts + delta + j * delta ≡ ts + suc j * delta = omega arith in
    ap (λ r. ts ∷ r) (rw same at (ramp-suc j delta (ts + delta)))

pub decode-bump_last :
    (es : List TimeToSampleEntry) (delta ts : ℕ)
    → HasLast es delta
    → total_count es + 1 < 2 ^ 32
    → decode (bump_last es) ts ≡ decode es ts ++ ((ts + total_time es) ∷ [])
unfolding bump_last
decode-bump_last [] delta ts h c = absurd h
decode-bump_last (e ∷ []) delta ts h c =
    let more : add32 e.sample_count 1 ≡ suc e.sample_count = omega arith in
    let same : e.sample_count * e.sample_delta + 0 ≡ e.sample_count * e.sample_delta =
      omega arith in
    rw (more, same, append-nil, append-nil) (ramp-suc e.sample_count e.sample_delta ts)
decode-bump_last (e ∷ e' ∷ es) delta ts h c =
    let next = ts + e.sample_count * e.sample_delta in
    let same : next + total_time (e' ∷ es) ≡ ts + total_time (e ∷ e' ∷ es) = omega arith in
    ap (λ r. ramp e.sample_count e.sample_delta ts ++ r)
      (decode-bump_last (e' ∷ es) delta next h (omega arith))
    ∙ rw same (sym (append_assoc (ramp e.sample_count e.sample_delta ts) (decode (e' ∷ es) next) _))

pub totals-bump_last :
    (es : List TimeToSampleEntry) (delta : ℕ)
    → HasLast es delta
    → total_count es + 1 < 2 ^ 32
    → (total_time (bump_last es) ≡ total_time es + delta)
      × (total_count (bump_last es) ≡ total_count es + 1)
      × (length (bump_last es) ≡ length es)
      × HasLast (bump_last es) delta
unfolding bump_last
totals-bump_last [] delta h c = absurd h
totals-bump_last (e ∷ []) delta h c =
    let more : add32 e.sample_count 1 ≡ suc e.sample_count = omega arith in
    (rw (more, h) (omega arith), omega arith, refl, h)
totals-bump_last (e ∷ e' ∷ []) delta h c =
    let (p, q, r, s) = totals-bump_last (e' ∷ []) delta h (omega arith) in
    (omega arith, omega arith, ap suc r, s)
totals-bump_last (e ∷ e' ∷ e'' ∷ es) delta h c =
    let (p, q, r, s) = totals-bump_last (e' ∷ e'' ∷ es) delta h (omega arith) in
    (omega arith, omega arith, ap suc r, s)
