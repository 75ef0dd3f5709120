-- ===== src/File/Kept.antt =====
-- src/mp4_track.c: the tracks and the links that `mp4_tracks_build` leaves.
use libmp.File.{Build, track_find}
use libmp.File.Links.{Keeps, has}
use libmp.File.Linked.{Serves}
use libmp.File.OneTrack.{IsBuilding}
use libmp.Prelude.{List, ℕ, ◌≡◌, some, true}
use libmp.Track.{Track}

-- What the rounds of the tracks at some addresses do
record AllBuilt (b c : Build) (as' : List ℕ) : Type 0 where
  keeps : Keeps b.tracks c.tracks
  building : IsBuilding c
  serves :
      (a id : ℕ) (m : Track)
      → has a as' ≡ true
      → track_find c.tracks a ≡ some m
      → has id m.reference_track_id ≡ true
      → Serves c.tracks a id
