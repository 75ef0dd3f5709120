-- ===== src/Mux/Sort.antt =====
-- src/mp4_mux.c, `mp4_mux_sort_tracks`: the tracks in the order of their identifiers.
pub mod Order
use Prim.Native.Nat.{bit_and}
use libmp.Mux.{MuxTrack, Mux}
use libmp.Prelude.{ℕ, List, Bool, ◌∷◌, if◌then◌else◌, ◌++◌, ◌==◌, true, [], add32, not, false}
use libmp.Types.{TrackType}

-- `mp4_mux_track_type_from_priority` over `track_type_priority_map`
pub track_type_from_priority : ℕ → TrackType
track_type_from_priority i =
    if i == 0
    then TrackType.video
    else if i == 1
    then TrackType.audio
    else if i == 2
    then TrackType.hint
    else if i == 3
    then TrackType.metadata
    else if i == 4
    then TrackType.text
    else if i == 5
    then TrackType.chapters
    else TrackType.unknown

pub same_type : TrackType → TrackType → Bool
same_type TrackType.unknown TrackType.unknown = true
same_type TrackType.video TrackType.video = true
same_type TrackType.audio TrackType.audio = true
same_type TrackType.hint TrackType.hint = true
same_type TrackType.metadata TrackType.metadata = true
same_type TrackType.text TrackType.text = true
same_type TrackType.chapters TrackType.chapters = true
same_type _ _ = false

-- `track->flags & TRACK_FLAG_ENABLED`
pub is_enabled : MuxTrack → Bool
is_enabled t = not (bit_and t.flags 1 == 0)

-- The walk of one pass: the tracks that it moves, with their identifiers from `id` on; the tracks
-- that stay; and the next identifier.
pub take_pass : (MuxTrack → Bool) → ℕ → List MuxTrack → List MuxTrack × List MuxTrack × ℕ
take_pass p id [] = ([], [], id)
take_pass p id (t ∷ ts) =
    let moved = take_pass p (add32 id 1) ts in
    let stayed = take_pass p id ts in
    if p t
    then (record t { id = id } ∷ moved.0, moved.1, moved.2)
    else (stayed.0, t ∷ stayed.1, stayed.2)

-- What a pass looks for: pass 0 takes enabled tracks, pass 1 takes disabled ones.
abbrev pub selects : TrackType × Bool → MuxTrack → Bool
selects q t =
    if same_type t.kind q.0 then (if q.1 then is_enabled t else not (is_enabled t)) else false

-- The two nested loops over priorities and passes, written out.
pub passes : List ℕ → List (TrackType × Bool)
passes [] = []
passes (i ∷ is) =
    let type = track_type_from_priority i in
    let rest = passes is in
    if same_type type TrackType.unknown then rest else (type, true) ∷ (type, false) ∷ rest

pub sort_loop : List (TrackType × Bool) → ℕ → List MuxTrack → List MuxTrack
sort_loop [] id tracks = []
sort_loop (q ∷ qs) id tracks =
    let r = take_pass (selects q) id tracks in r.0 ++ sort_loop qs r.2 r.1

abbrev pub priorities : List ℕ
priorities = 0 ∷ 1 ∷ 2 ∷ 3 ∷ 4 ∷ 5 ∷ []

-- `mp4_mux_sort_tracks`: the new list replaces the tracks.
pub sort_tracks : Mux → Mux
sort_tracks m = record m { tracks = sort_loop (passes priorities) 1 m.tracks }
