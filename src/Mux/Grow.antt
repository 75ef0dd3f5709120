-- ===== src/Mux/Grow.antt =====
-- src/mp4_mux.c, `mp4_mux_grow_samples` and the four functions like it: the capacity of an array.
-- What `realloc` answers to a request of so many bytes is an argument.
use libmp.Prelude.{
  ℕ, Bool, ◌-◌, Res, ◌*◌, ◌≡◌, if◌then◌else◌, ◌≤◌, add32, true, ◌+◌, ltb, ◌&&◌, ◌>>=◌, ◌==◌, fault,
  ◌^◌, ok, err, suc, ◌⊎◌, zero, ◌<◌, enomem, false, arith, ap, Bool-cases, inl, inr, ltb→lt, ◌∙◌,
  refl,
}

-- MP4_MUX_TABLES_GROW_SIZE
abbrev pub grow_size : ℕ
grow_size = 128

-- `while (nextcap < need) nextcap += 128;` on uint32_t. A `fault` is a loop that has not ended.
unfoldable pub grow_loop : ℕ → ℕ → ℕ → Res ℕ
grow_loop zero need cap = if ltb cap need then fault else ok cap
grow_loop (suc fuel) need cap =
    let rest = grow_loop fuel need (add32 cap grow_size) in if ltb cap need then rest else ok cap

-- The new capacity. `room` tells whether every array can be had at that capacity.
unfoldable pub grow : (ℕ → Bool) → ℕ → ℕ → ℕ → Res ℕ
grow room count cap new =
    let need = add32 count new in
    grow_loop (need - cap) need cap >>= λ next.
    if next == cap then ok cap else if room next then ok next else err enomem

module _ (realloc : ℕ → Bool) where
  -- `mp4_mux_grow_samples`: a uint32_t array and two uint64_t arrays
  unfoldable pub grow_samples : ℕ → ℕ → ℕ → Res ℕ
  grow_samples = grow (λ n. realloc (n * 4) && (realloc (n * 8) && realloc (n * 8)))

  -- `mp4_mux_grow_chunks`
  unfoldable pub grow_chunks : ℕ → ℕ → ℕ → Res ℕ
  grow_chunks = grow (λ n. realloc (n * 8))

  -- `mp4_mux_grow_tts`
  unfoldable pub grow_tts : ℕ → ℕ → ℕ → Res ℕ
  grow_tts = grow (λ n. realloc (n * 8))

  -- `mp4_mux_grow_stc`
  unfoldable pub grow_stc : ℕ → ℕ → ℕ → Res ℕ
  grow_stc = grow (λ n. realloc (n * 12))

  -- `mp4_mux_grow_sync`
  unfoldable pub grow_sync : ℕ → ℕ → ℕ → Res ℕ
  grow_sync = grow (λ n. realloc (n * 4))

-- `r` is the first capacity from `cap` on, in steps of 128, that is enough.
abbrev pub Grown : ℕ → ℕ → Res ℕ → Type 0
Grown need cap r =
    (k : ℕ) × (r ≡ ok (cap + k * grow_size))
    × (need ≤ cap + k * grow_size)
    × (k ≡ 0 ⊎ cap + k * grow_size < need + grow_size)

Grown-step :
    (need cap : ℕ) (r : Res ℕ) → cap < need → Grown need (cap + grow_size) r → Grown need cap r
Grown-step need cap r lt (k, e, f, g) =
    (suc k, e ∙ ap ok (omega arith), omega arith, inr (omega arith))

-- The loop ends, at the first capacity that is enough and a multiple of 128 above the old one.
pub grow_loop-Grown :
    (fuel need cap : ℕ)
    → need - cap ≤ fuel
    → need + grow_size ≤ 2 ^ 32
    → Grown need cap (grow_loop fuel need cap)
unfolding grow_loop
grow_loop-Grown zero need cap h₁ h₂ =
    let stop : ltb cap need ≡ false = ground arith in
    (0, rw stop (ap ok (omega arith)), omega arith, inl refl)
grow_loop-Grown (suc fuel) need cap h₁ h₂ = elim (Bool-cases (ltb cap need)) [
  | inr stop ↦ (0, rw stop (ap ok (omega arith)), ground arith, inl refl)
  | inl more ↦
      let lt = ltb→lt cap need more in
      let next : add32 cap grow_size ≡ cap + grow_size = omega arith in
      Grown-step need cap _ lt
        (rw (more, next) (grow_loop-Grown fuel need (cap + grow_size) (omega arith) h₂))
]

Grown-room :
    (room : ℕ → Bool) (need cap : ℕ) (r : Res ℕ)
    → ((n : ℕ) → room n ≡ true)
    → Grown need cap r
    → (next : ℕ) × ((r >>= λ n. if n == cap then ok cap else if room n then ok n else err enomem)
        ≡ ok next)
      × (need ≤ next)
      × (cap ≤ next)
      × (next ≡ cap ⊎ next < need + grow_size)
Grown-room room need cap r h (k, e, f, inl z) =
    let same : cap + k * grow_size ≡ cap = rw z (omega arith) in
    (cap, rw (e, same) (ground arith), omega (arith, same), omega arith, inl refl)
Grown-room room need cap r h (k, e, f, inr l) =
    let next = cap + k * grow_size in (next, rw e (ground (arith, h next)), f, omega arith, inr l)

-- With memory to be had, and a need that stays 128 below 2^32, growing by `new` gives a capacity
-- for `count + new` elements, never less than the old one, and less than 128 above what is needed
-- unless the old one was enough.
pub grow_enough :
    (room : ℕ → Bool) (count cap new : ℕ)
    → ((n : ℕ) → room n ≡ true)
    → count + new + grow_size ≤ 2 ^ 32
    → (next : ℕ) × (grow room count cap new ≡ ok next)
      × (count + new ≤ next)
      × (cap ≤ next)
      × (next ≡ cap ⊎ next < count + new + grow_size)
unfolding grow
grow_enough room count cap new h₁ h₂ =
    let need : add32 count new ≡ count + new = omega arith in
    rw need (
      Grown-room room (count + new) cap _ h₁
        (grow_loop-Grown (count + new - cap) (count + new) cap (omega arith) h₂))
