-- ===== src/Mux/Sample/Steps.antt =====
-- What `mp4_mux_track_add_scattered_sample` keeps of a track's tables.
use libmp.Mux.Grow.{grow_loop, grow, grow_size, grow_chunks, grow_samples, grow_sync}
use libmp.Prelude.{
  ℕ, Bool, List, ◌≡◌, ok, ◌∷◌, ◌+◌, map, length, ◌<◌, ◌≤◌, ◌^◌, ◌≢◌, arith, [], add32, suc, ◌-◌,
  zero, ap, ◌++◌, if◌then◌else◌, ◌∙◌, length-map, ◌&&◌, ◌*◌, length-append, Bool-cases, inl, inr,
  Res-cases, Option-cases, ltb, sum,
}
use libmp.Mux.Sample.{
  Written, add_to_track, write_sample, Io, ScatteredSample, grow_sync_for, stored, is_video, grown,
  new_sample, rolls_back,
}
use libmp.Mux.{MuxTrack}
use mathlib.Core.List.{map-append}

-- The entries go up, from above `lo` to `hi`.
abbrev pub Ascending : ℕ → ℕ → List ℕ → Type 0
Ascending lo hi [] = Unit
Ascending lo hi (x ∷ xs) = (lo < x) × (x ≤ hi) × Ascending x hi xs

-- One chunk a sample, at the sample's offset; room for every entry; the sync samples go up and are
-- among the samples.
pub record IsAligned (t : MuxTrack) : Type 0 where
  pub offsets : t.chunks.entries ≡ map (λ s. s.offset) t.samples.entries
  pub sample_room : length t.samples.entries ≤ t.samples.capacity
  pub chunk_room : length t.chunks.entries ≤ t.chunks.capacity
  pub sync_room : length t.sync.entries ≤ t.sync.capacity
  pub syncs : Ascending 0 (length t.samples.entries) t.sync.entries

grow_loop-le : (fuel need cap next : ℕ) → grow_loop fuel need cap ≡ ok next → need ≤ next
unfolding grow_loop
grow_loop-le zero need cap next e = ground arith
grow_loop-le (suc fuel) need cap next e =
    ground (arith, grow_loop-le fuel need (add32 cap grow_size) next)

-- A capacity that growing gave holds one more element.
grow-le :
    (room : ℕ → Bool) (count cap next : ℕ)
    → count + 1 < 2 ^ 32
    → grow room count cap 1 ≡ ok next
    → count + 1 ≤ next
unfolding grow
grow-le room count cap next h e =
    let need : add32 count 1 ≡ count + 1 = omega arith in
    ground (arith, need, grow_loop-le (count + 1 - cap) (count + 1) cap next)

-- The entries of the tables, and the time of the last sample.
abbrev pub SameEntries : MuxTrack → MuxTrack → Type 0
SameEntries t u =
    (u.samples.entries ≡ t.samples.entries)
    × (u.chunks.entries ≡ t.chunks.entries)
    × (u.sync.entries ≡ t.sync.entries)
    × (u.last_dts ≡ t.last_dts)

-- Whatever the system answers, a call that does not succeed leaves the entries of every table, and
-- the time of the last sample, as they were.
pub add_to_track_failed :
    (io : Io) (t : MuxTrack) (s : ScatteredSample) (offset : ℕ)
    → (add_to_track io t s offset).0 ≢ ok tt
    → SameEntries t (add_to_track io t s offset).1
unfolding add_to_track write_sample
add_to_track_failed io t s offset h = ground arith

Ascending-widen : (xs : List ℕ) (lo hi : ℕ) → Ascending lo hi xs → Ascending lo (hi + 1) xs
Ascending-widen [] lo hi a = tt
Ascending-widen (x ∷ xs) lo hi a = (a.0, omega (arith, a.1), Ascending-widen xs x hi a.2)

Ascending-push :
    (xs : List ℕ) (lo hi : ℕ)
    → lo ≤ hi
    → Ascending lo hi xs
    → Ascending lo (hi + 1) (xs ++ ((hi + 1) ∷ []))
Ascending-push [] lo hi h a = (omega arith, omega arith, tt)
Ascending-push (x ∷ xs) lo hi h a = (a.0, omega (arith, a.1), Ascending-push xs x hi a.1 a.2)

module _ (t : MuxTrack) (a : IsAligned t) (few : length t.samples.entries + 1 < 2 ^ 32) where
  grow_samples-room :
      (realloc : ℕ → Bool) (next : ℕ)
      → grow_samples realloc (length t.samples.entries) t.samples.capacity 1 ≡ ok next
      → length t.samples.entries + 1 ≤ next
  unfolding grow_samples
  grow_samples-room realloc next e = grow-le _ _ _ next few e

  length-chunks : length t.chunks.entries ≡ length t.samples.entries
  length-chunks = ap length a.offsets ∙ length-map t.samples.entries (λ s. s.offset)

  grow_chunks-room :
      (realloc : ℕ → Bool) (next : ℕ)
      → grow_chunks realloc (length t.chunks.entries) t.chunks.capacity 1 ≡ ok next
      → length t.chunks.entries + 1 ≤ next
  unfolding grow_chunks
  grow_chunks-room realloc next e = grow-le _ _ _ next (omega (arith, length-chunks)) e

  length-sync-le : (xs : List ℕ) (lo hi : ℕ) → lo ≤ hi → Ascending lo hi xs → length xs + lo ≤ hi
  length-sync-le [] lo hi h b = omega arith
  length-sync-le (x ∷ xs) lo hi h b = omega (arith, length-sync-le xs x hi b.1 b.2)

  grow_sync-room :
      (realloc : ℕ → Bool) (s : ScatteredSample) (next : ℕ)
      → grow_sync_for realloc t s ≡ ok next
      → (if s.sync && is_video t.kind then length t.sync.entries + 1 else length t.sync.entries)
        ≤ next
  unfolding grow_sync_for grow_sync
  grow_sync-room realloc s next e = ground (
    arith,
    a.sync_room,
    grow-le (λ n. realloc (n * 4)) (length t.sync.entries) t.sync.capacity next
        (omega (
          arith,
          length-sync-le t.sync.entries 0 (length t.samples.entries) (omega arith) a.syncs,
        )),
  )

  stored-IsAligned :
      (s : ScatteredSample) (offset samples chunks sync : ℕ)
      → length t.samples.entries + 1 ≤ samples
      → length t.chunks.entries + 1 ≤ chunks
      → (if s.sync && is_video t.kind then length t.sync.entries + 1 else length t.sync.entries)
        ≤ sync
      → IsAligned (stored (grown t samples chunks sync) s offset)
  unfolding stored
  stored-IsAligned s offset samples chunks sync h₁ h₂ h₃ = record {
    offsets = rw map-append (ap (λ xs. xs ++ (offset ∷ [])) a.offsets);
    sample_room = omega (arith, length-append t.samples.entries (new_sample s offset ∷ []));
    chunk_room = omega (arith, length-append t.chunks.entries (offset ∷ []));
    sync_room = ground (arith, length-append t.sync.entries ((length t.samples.entries + 1) ∷ []));
    syncs = elim (Bool-cases (s.sync && is_video t.kind)) [
      | inl yes_sync ↦
          rw (length-append, yes_sync)
            (Ascending-push t.sync.entries 0 (length t.samples.entries) (omega arith) a.syncs)
      | inr no_sync ↦
          rw (length-append, no_sync)
            (Ascending-widen t.sync.entries 0 (length t.samples.entries) a.syncs)
    ];
  }

  grown-IsAligned :
      (samples chunks sync : ℕ)
      → length t.samples.entries ≤ samples
      → length t.chunks.entries ≤ chunks
      → length t.sync.entries ≤ sync
      → IsAligned (grown t samples chunks sync)
  grown-IsAligned samples chunks sync h₁ h₂ h₃ = record {
    offsets = a.offsets;
    sample_room = h₁;
    chunk_room = h₂;
    sync_room = h₃;
    syncs = a.syncs;
  }

  write_sample-IsAligned :
      (io : Io) (s : ScatteredSample) (offset samples chunks sync : ℕ)
      → length t.samples.entries + 1 ≤ samples
      → length t.chunks.entries + 1 ≤ chunks
      → (if s.sync && is_video t.kind then length t.sync.entries + 1 else length t.sync.entries)
        ≤ sync
      → IsAligned (write_sample io (grown t samples chunks sync) s offset).1
  unfolding write_sample
  write_sample-IsAligned io s offset samples chunks sync h₁ h₂ h₃ =
      let same = grown-IsAligned samples chunks sync (omega arith) (omega arith) (ground arith) in
      elim io.written
        as (λ w.
          IsAligned
            (write_sample (record io { written = w }) (grown t samples chunks sync) s offset).1) [
              | Written.failed e ↦ same
              | Written.bytes n ↦ elim (Bool-cases (ltb n (sum s.len))) [
                | inl short ↦ rw short same
                | inr whole ↦ rw whole (stored-IsAligned s offset samples chunks sync h₁ h₂ h₃)
              ]
            ]

  -- Every call on a track whose tables are aligned (one chunk a sample, at its offset; room for
  -- every entry; sync samples that go up and are among the samples), with fewer than 2^32 - 1
  -- samples, leaves them aligned, whatever the system answers.
  pub add_to_track-IsAligned :
      (io : Io) (s : ScatteredSample) (offset : ℕ) → IsAligned (add_to_track io t s offset).1
  unfolding add_to_track
  add_to_track-IsAligned io s offset = elim (Bool-cases (rolls_back t s)) [
    | inl back ↦ rw back a
    | inr on ↦
        rw on
          (elim (Res-cases
            (grow_samples io.realloc (length t.samples.entries) t.samples.capacity 1)) [
              | inr (inl (e, p)) ↦ rw p a
              | inr (inr p) ↦ rw p a
              | inl (samples, p) ↦
                  let h₁ = grow_samples-room io.realloc samples p in
                  rw p
                    (elim (Res-cases
                      (grow_chunks io.realloc (length t.chunks.entries) t.chunks.capacity 1)) [
                        | inr (inl (e, q)) ↦
                            rw q
                              (grown-IsAligned samples _ _ (omega arith) a.chunk_room a.sync_room)
                        | inr (inr q) ↦
                            rw q
                              (grown-IsAligned samples _ _ (omega arith) a.chunk_room a.sync_room)
                        | inl (chunks, q) ↦
                            let h₂ = grow_chunks-room io.realloc chunks q in
                            let kept =
                              grown-IsAligned samples chunks _ (omega arith) (omega arith)
                                a.sync_room in
                            rw q (elim (Option-cases io.seek) [
                              | inr (e, r) ↦ rw r kept
                              | inl r ↦ rw r (elim (Res-cases (grow_sync_for io.realloc t s)) [
                                | inr (inl (e, u)) ↦ rw u kept
                                | inr (inr u) ↦ rw u kept
                                | inl (sync, u) ↦ rw u (
                                    write_sample-IsAligned io s offset samples chunks sync h₁ h₂
                                      (grow_sync-room io.realloc s sync u))
                              ])
                            ])
                      ])
            ])
  ]
