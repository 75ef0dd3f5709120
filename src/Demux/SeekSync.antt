-- ===== src/Demux/SeekSync.antt =====
-- src/mp4_demux.c: where `mp4_demux_seek` leaves a track under MP4_SEEK_METHOD_PREVIOUS and
-- MP4_SEEK_METHOD_PREVIOUS_SYNC.
use libmp.Track.{Track}
use libmp.Track.Valid.{time_at}
use libmp.Prelude.{ℕ, List, Res, ◌<◌, get_or, ◌≡◌, ◌+◌, ok}

-- What a seek that set out from sample `i` leaves: the track is at `i` if that is a sync sample, and
-- otherwise at the last sync sample before it, with the time of `i` pending.
pub data Landed (t : Track) (n : ℕ) (es : List ℕ) (i : ℕ) : Res Track → Type 0 where
  here :
      (j : ℕ)
      → j < n
      → get_or es j 0 ≡ i + 1
      → Landed t n es i (ok (record t { next_sample = i; pending_seek_time = 0 }))
  before :
      (j p : ℕ)
      → j < n
      → get_or es j 0 ≡ p + 1
      → p < i
      → ((k : ℕ) → j < k → k < n → i + 1 < get_or es k 0)
      → Landed t n es i (ok (record t { next_sample = p; pending_seek_time = time_at t i }))
