-- ===== src/Mux/Sort/Order.antt =====
-- What sorting the muxer's tracks gives.
use mathlib.Core.List.Perm
use libmp.Prelude.{ℕ, List, Bool, ◌+◌, ◌∷◌, ◌≤◌, ◌≡◌, if◌then◌else◌, [], true, ◌⊎◌}
use libmp.Mux.Sort.{is_enabled, selects}
use libmp.Mux.{MuxTrack, Mux}
use libmp.Types.{TrackType}
use mathlib.Core.List.{Perm}

-- The identifiers count up from `id`.
abbrev pub Numbered : ℕ → List MuxTrack → Type 0
Numbered id [] = Unit
Numbered id (t ∷ ts) = (t.id ≡ id) × Numbered (id + 1) ts

-- The pass that takes a track: 2 * priority, and one more if it is disabled.
abbrev pub rank : MuxTrack → ℕ
rank t =
    elim t.kind [
      | TrackType.video ↦ 0
      | TrackType.audio ↦ 2
      | TrackType.hint ↦ 4
      | TrackType.metadata ↦ 6
      | TrackType.text ↦ 8
      | TrackType.chapters ↦ 10
      | TrackType.unknown ↦ 12
    ]
    + (if is_enabled t then 0 else 1)

-- The ranks do not fall, from `lo` on.
abbrev pub Ranked : ℕ → List MuxTrack → Type 0
Ranked lo [] = Unit
Ranked lo (t ∷ ts) = (lo ≤ rank t) × Ranked (rank t) ts

-- Some pass of the list takes the track.
abbrev pub Covered : List (TrackType × Bool) → MuxTrack → Type 0
Covered [] t = ⊥
Covered (q ∷ qs) t = (selects q t ≡ true) ⊎ Covered qs t

-- The rank of the tracks that a pass takes.
abbrev rank_of : TrackType × Bool → ℕ
rank_of q =
    elim q.0 [
      | TrackType.video ↦ 0
      | TrackType.audio ↦ 2
      | TrackType.hint ↦ 4
      | TrackType.metadata ↦ 6
      | TrackType.text ↦ 8
      | TrackType.chapters ↦ 10
      | TrackType.unknown ↦ 12
    ]
    + (if q.1 then 0 else 1)

-- The passes go up in rank from `lo` on.
abbrev PassesUp : ℕ → List (TrackType × Bool) → Type 0
PassesUp lo [] = Unit
PassesUp lo (q ∷ qs) = (lo ≤ rank_of q) × PassesUp (rank_of q) qs
