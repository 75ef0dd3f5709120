-- ===== src/Mux/Tts/RoundTrip.antt =====
-- The table that the muxer computes means the decoding times that it was computed from.
use libmp.Prelude.{
  ℕ, Bool, List, ◌<◌, ◌≡◌, ◌∷◌, true, ok, [], ◌≤◌, ◌+◌, ◌^◌, ◌-◌, inl, inr, length, ◌++◌, arith,
  add64, ◌%◌, length-append, sub64, ◌∙◌, refl, map, ap,
}
use libmp.Time.{convert_timescale}
use libmp.Mux.Tts.{Tts, push_entry, record_diff, tts_loop, tts_step, compute_tts, tts_start, tts_of}
use libmp.Build.Times.{decode, total_time, total_count}
use libmp.Mux.{Table, MuxTrack}
use libmp.Types.{TimeToSampleEntry}
use libmp.Mux.Tts.Covers.{one, totals-push, decode-push}
use mathlib.Core.List.{append_assoc}
use libmp.Mux.Tts.Recorded.{Recorded, convert_total, push_entry_total, record_diff_total}

-- The decoding times do not fall, and each step from `prev` on is less than UINT32_MAX ticks.
abbrev pub Climbs : ℕ → List ℕ → Type 0
Climbs prev [] = Unit
Climbs prev (x ∷ xs) = (prev ≤ x) × (x < prev + (2 ^ 32 - 1)) × (x < 2 ^ 64) × Climbs x xs

-- The last of the times from `prev` on.
abbrev pub last_time : ℕ → List ℕ → ℕ
last_time prev [] = prev
last_time prev (x ∷ xs) = last_time x xs

module _ (realloc : ℕ → Bool) (room : (n : ℕ) → realloc n ≡ true) where
  tts_step-ok :
      (src dest d moov next : ℕ) (s : Tts) (table : Table TimeToSampleEntry)
      → sub64 next s.prev_dts % 2 ^ 32 ≡ d
      → convert_timescale d src dest ≡ ok moov
      → record_diff realloc s d ≡ ok table
      → tts_step realloc src dest s next
        ≡ ok (record {
          table = table;
          duration = add64 s.duration d;
          duration_moov = add64 s.duration_moov moov;
          prev_diff = d;
          prev_dts = next;
        })
  unfolding tts_step
  tts_step-ok src dest d moov next s table e f g = rw (e, f, g)

  pub tts_of-ok :
      (dest first : ℕ) (rest : List ℕ) (t : MuxTrack) (s : Tts) (table : Table TimeToSampleEntry)
      → tts_loop realloc t.timescale dest rest (tts_start realloc t first) ≡ ok s
      → push_entry realloc s.table 0 ≡ ok table
      → tts_of realloc dest t (first ∷ rest)
        ≡ ok (record t {
          time_to_sample = table;
          duration = s.duration;
          duration_moov = s.duration_moov;
        })
  unfolding tts_of
  tts_of-ok dest first rest t s table e f = rw (e, f)

  module _ (src dest : ℕ) (ticks : 0 < src) (first : ℕ) where
    tts_step_total :
        (seen : List ℕ) (s : Tts) (next : ℕ)
        → Recorded first seen s
        → s.prev_dts ≤ next
        → next < s.prev_dts + (2 ^ 32 - 1)
        → next < 2 ^ 64
        → length seen + 130 ≤ 2 ^ 32
        → (s' : Tts) × (tts_step realloc src dest s next ≡ ok s')
          × Recorded first (seen ++ (s.prev_dts ∷ [])) s'
          × (s'.prev_dts ≡ next)
    tts_step_total seen s next r h₁ h₂ h₃ h₄ =
        let d = next - s.prev_dts in
        let diff : sub64 next s.prev_dts % 2 ^ 32 ≡ d = omega (arith, r.fits) in
        let (moov, e) = convert_total d src dest ticks in
        let small : d < 2 ^ 32 - 1 = omega arith in
        let (table, f, x) = record_diff_total realloc room first d seen s r small h₄ in
        let longer = length-append seen (s.prev_dts ∷ []) in
        (
          record {
            table = table;
            duration = add64 s.duration d;
            duration_moov = add64 s.duration_moov moov;
            prev_diff = d;
            prev_dts = next;
          },
          tts_step-ok src dest d moov next s table diff e f,
          record {
            means = x.0 ∙ rw (r.means, r.reaches);
            reaches = omega (arith, x.1, r.reaches);
            counts = omega (arith, x.2, r.counts, longer);
            short = omega (arith, x.3, r.short, longer);
            last = inr x.4;
            lasts = omega (arith, r.lasts);
            fits = h₃;
          },
          refl,
        )

    tts_loop_total :
        (rest seen : List ℕ) (s : Tts)
        → Recorded first seen s
        → Climbs s.prev_dts rest
        → length seen + length rest + 130 ≤ 2 ^ 32
        → (s' : Tts) × (seen' : List ℕ) × (tts_loop realloc src dest rest s ≡ ok s')
          × Recorded first seen' s'
          × (seen' ++ (s'.prev_dts ∷ []) ≡ seen ++ (s.prev_dts ∷ rest))
          × (s'.prev_dts ≡ last_time s.prev_dts rest)
    unfolding tts_loop
    tts_loop_total [] seen s r c h = (s, seen, refl, r, refl, refl)
    tts_loop_total (next ∷ rest) seen s r c h =
        let roomy : length seen + 130 ≤ 2 ^ 32 = omega arith in
        let (s₁, e, r₁, p) = tts_step_total seen s next r c.0 c.1 c.2 roomy in
        let longer = length-append seen (s.prev_dts ∷ []) in
        let (s', seen', f, r', q, l) =
          tts_loop_total rest (seen ++ (s.prev_dts ∷ [])) s₁ r₁ (rw p c.3)
            (omega (arith, longer)) in
        (
          s',
          seen',
          rw e f,
          r',
          q ∙ rw p (append_assoc seen (s.prev_dts ∷ []) (next ∷ rest)),
          l ∙ rw p,
        )

    -- For a track of a timescale that is not 0 and of fewer than 2^32 - 130 samples, over decoding
    -- times on 64 bits that do not fall, in steps of less than UINT32_MAX ticks, with memory to be
    -- had: the function succeeds, the table means exactly these times and counts as many samples,
    -- and the track's duration is the time from the first to the last.
    pub compute_tts-decode :
        (t : MuxTrack) (rest : List ℕ)
        → t.timescale ≡ src
        → map (λ s. s.decoding_time) t.samples.entries ≡ first ∷ rest
        → first < 2 ^ 64
        → Climbs first rest
        → length rest + 131 ≤ 2 ^ 32
        → (t' : MuxTrack) × (compute_tts realloc dest t ≡ ok t')
          × (decode t'.time_to_sample.entries first ≡ first ∷ rest)
          × (total_count t'.time_to_sample.entries ≡ length rest + 1)
          × (total_time t'.time_to_sample.entries + first ≡ last_time first rest)
          × (t'.duration + first ≡ last_time first rest)
    unfolding compute_tts
    compute_tts-decode t rest e₁ e₂ h₁ h₂ h₃ =
        let s₀ = tts_start realloc t first in
        let begun : Recorded first [] s₀ = record {
          means = refl;
          reaches = omega arith;
          counts = refl;
          short = omega arith;
          last = inl refl;
          lasts = omega arith;
          fits = h₁;
        } in
        let roomy : 0 + length rest + 130 ≤ 2 ^ 32 = omega arith in
        let (s, seen, e, r, q, l) = tts_loop_total rest [] s₀ begun h₂ roomy in
        let long = ap length q in
        let longer = length-append seen (s.prev_dts ∷ []) in
        let space : length s.table.entries + 1 + 128 ≤ 2 ^ 32 =
          omega (arith, r.short, long, longer) in
        let (capacity, f) = push_entry_total realloc room s.table 0 space in
        let es = s.table.entries in
        let (p₁, p₂) = totals-push es 0 in
        (
          record t {
            time_to_sample = record { entries = es ++ (one 0 ∷ []); capacity = capacity };
            duration = s.duration;
            duration_moov = s.duration_moov;
          },
          rw e₂ (tts_of-ok dest first rest t s _ (rw e₁ e) f),
          decode-push es 0 first ∙ rw (r.means, r.reaches) q,
          omega (arith, p₂, r.counts, long, longer),
          omega (arith, p₁, r.reaches, l),
          omega (arith, r.lasts, l),
        )
