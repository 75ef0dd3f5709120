-- ===== src/Demux/Partial.antt =====
-- src/mp4_demux.c: how far `mp4_demux_seek` gets in the list of tracks.
use libmp.Prelude.{ℕ, List, Res, ◌≡◌, ◌++◌, ok, ◌∷◌, Res-cases, inl, ◌≢◌, ap, [], inr, refl}
use libmp.Types.{SeekMethod}
use libmp.Demux.{seek, seek_track}
use libmp.Track.{Track}

module _ (time : ℕ) (method : SeekMethod) where
  -- Each track of the first list was moved to the one of the second.
  abbrev pub Moved : List Track → List Track → Type 0
  Moved [] [] = Unit
  Moved (t ∷ ts) (u ∷ us) = (seek_track t time method ≡ ok u) × Moved ts us
  Moved _ _ = ⊥

  -- What the answer is when the tracks that are left are not moved.
  abbrev pub Stopped : List Track → Res (Unit {0}) → Type 0
  Stopped [] r = r ≡ ok tt
  Stopped (t ∷ ts) r = ((u : Track) → seek_track t time method ≢ ok u) × (r ≢ ok tt)

  -- For any list of tracks: the seek moves the tracks of a first part of the list, each as
  -- `seek_track` does, and leaves the others as they were. It succeeds exactly if none is left, and
  -- the first one that is left is one that cannot be seeked.
  pub seek-Moved :
      (ts : List Track)
      → (before moved after : List Track) × (ts ≡ before ++ after)
        × ((seek ts time method).1 ≡ moved ++ after)
        × Moved before moved
        × Stopped after (seek ts time method).0
  unfolding seek
  seek-Moved [] = ([], [], [], refl, refl, tt, refl)
  seek-Moved (t ∷ ts) = elim (Res-cases (seek_track t time method)) [
    | inl (u, e) ↦
        let (before, moved, after, split, left, each, stop) = seek-Moved ts in
        (
          t ∷ before,
          u ∷ moved,
          after,
          ap (λ xs. t ∷ xs) split,
          rw (e, seek) (ap (λ xs. u ∷ xs) left),
          (e, each),
          rw (e, seek) stop,
        )
    | inr (inl (x, e)) ↦
        ([], [], t ∷ ts, refl, rw (e, seek) refl, tt, ((λ u p. cc), rw (e, seek) (λ p. cc)))
    | inr (inr e) ↦
        ([], [], t ∷ ts, refl, rw (e, seek) refl, tt, ((λ u p. cc), rw (e, seek) (λ p. cc)))
  ]
