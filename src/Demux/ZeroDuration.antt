-- ===== src/Demux/ZeroDuration.antt =====
-- src/mp4_demux.c: `mp4_demux_seek` divides by the duration of a track, which may be 0.
use libmp.Demux.{seek, seek_track, seek_start, seek_guess, first_guess}
use libmp.Prelude.{List, ℕ, All, ◌≡◌, ok, ◌++◌, ◌∷◌, fault, ◌==◌, true, arith, [], refl}
use libmp.Track.{Track}
use libmp.Types.{SeekMethod}

seek_track_fault :
    (t : Track) (time : ℕ) (method : SeekMethod) → t.duration ≡ 0 → seek_track t time method ≡ fault
unfolding seek_track seek_start seek_guess first_guess
seek_track_fault t time method z = let e : (t.duration == 0) ≡ true = ground arith in rw e refl

-- If every track before one of duration 0 can be seeked, the seek gets to that track and divides by
-- zero, whatever the time and the method.
pub seek_zero_duration :
    (before after : List Track) (t : Track) (time : ℕ) (method : SeekMethod)
    → All (λ u. (u' : Track) × (seek_track u time method ≡ ok u')) before
    → t.duration ≡ 0
    → (seek (before ++ (t ∷ after)) time method).0 ≡ fault
unfolding seek
seek_zero_duration [] after t time method h z = rw (seek_track_fault t time method z, seek) refl
seek_zero_duration (u ∷ us) after t time method h z =
    rw (h.0.1, seek) (seek_zero_duration us after t time method h.1 z)
