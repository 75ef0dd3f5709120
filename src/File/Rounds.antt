-- ===== src/File/Rounds.antt =====
-- src/mp4_track.c: the loop of `mp4_tracks_build` over the references of one track.
use libmp.File.{track_find, track_find_by_id, link_one, link_all, Build, link_found}
use libmp.File.Links.{
  Keeps, has, find-Keeps, Keeps-refl, Keeps-trans, find-addr, find-find_by_id, apart-Keeps,
}
use libmp.File.Linked.{IsLinked, Serves, Serves-Keeps}
use libmp.File.Steps.{Round}
use libmp.File.Referred.{found-Round}
use libmp.File.Registry.{all_apart}
use libmp.Prelude.{
  List, ℕ, ◌≡◌, ◌==◌, inl, refl, ==_iff, inr, some, true, Bool-cases, ◌∙◌, sym, arith, Option-cases,
  ◌∷◌, [],
}
use libmp.Track.{Track}
use mathlib.Core.Path.{subst}

-- A round that finds one of its tracks nowhere
nowhere :
    (ts : List Track) (a id : ℕ)
    → ((m r : Track) → track_find ts a ≡ some m → ¬ (track_find_by_id ts id ≡ some r))
    → Round ts ts a id
nowhere ts a id h = record {
  keeps = Keeps-refl ts;
  linked = λ l. l;
  serves = λ m r e f. absurd (h m r e f);
}

pub link_one-Round :
    (addr id : ℕ) (b : Build)
    → all_apart b.tracks ≡ true
    → ((t : Track) → track_find b.tracks addr ≡ some t → has id t.reference_track_id ≡ true)
    → Round b.tracks (link_one addr id b).tracks addr id
unfolding link_one
link_one-Round addr id b apart named = elim (Option-cases (track_find b.tracks addr)) [
  | inl p ↦ rw (p, link_one) (nowhere b.tracks addr id (λ m r e f. cc))
  | inr (t, p) ↦ elim (Option-cases (track_find_by_id b.tracks id)) [
    | inl q ↦ rw (p, link_one, q) (nowhere b.tracks addr id (λ m r e f. cc))
    | inr (r, q) ↦
        let here = find-addr b.tracks addr t p in
        let (at_r, same) = find-find_by_id b.tracks id r apart q in
        let at_t = subst (λ a. track_find b.tracks a ≡ some t) (sym here) p in
        rw (p, link_one, q)
          (subst (λ a. Round b.tracks (link_found t r b).tracks a id) here
            (found-Round b.tracks apart id t r at_t at_r q same (named t p) b refl))
  ]
]

-- What the rounds of one track do
pub record Rounds (ts us : List Track) (a : ℕ) (ids : List ℕ) : Type 0 where
  pub keeps : Keeps ts us
  pub linked : IsLinked ts → IsLinked us
  pub serves : (id : ℕ) → has id ids ≡ true → Serves us a id

pub link_all-Rounds :
    (addr : ℕ) (ids : List ℕ) (b : Build)
    → all_apart b.tracks ≡ true
    → ((t : Track) (id : ℕ)
        → track_find b.tracks addr ≡ some t
        → has id ids ≡ true
        → has id t.reference_track_id ≡ true)
    → Rounds b.tracks (link_all addr ids b).tracks addr ids
unfolding link_all
link_all-Rounds addr [] b apart named = record {
  keeps = Keeps-refl b.tracks;
  linked = λ h. h;
  serves = λ id h. absurd (cc h);
}
link_all-Rounds addr (id ∷ ids) b apart named =
    let self : has id (id ∷ ids) ≡ true = ground arith in
    let one = link_one-Round addr id b apart (λ t e. named t id e self) in
    let rest =
      link_all-Rounds addr ids (link_one addr id b) (apart-Keeps one.keeps apart) (λ t i e h.
        let (t', e', k) = find-Keeps addr t one.keeps e in
        let refs = k.reference_track_id in
        let more : has i (id ∷ ids) ≡ true = ground (arith, h) in rw refs (named t' i e' more)) in
    record {
      keeps = Keeps-trans one.keeps rest.keeps;
      linked = λ h. rest.linked (one.linked h);
      serves = λ i h. elim (Bool-cases (id == i)) [
        | inl p ↦
            Serves-Keeps addr i rest.keeps
              (subst (Serves (link_one addr id b).tracks addr) ((==_iff _ _).0 p) one.serves)
        | inr p ↦ rest.serves i (ground (arith, h, p))
      ];
    }

-- The variables that hold a video and a metadata track are left as they are.
link_one-variables :
    (addr id : ℕ) (b : Build)
    → ((link_one addr id b).video_tk ≡ b.video_tk) × ((link_one addr id b).meta_tk ≡ b.meta_tk)
unfolding link_one link_found
link_one-variables addr id b = elim (Option-cases (track_find b.tracks addr)) [
  | inl p ↦ rw (p, link_one) (refl, refl)
  | inr (t, p) ↦ elim (Option-cases (track_find_by_id b.tracks id)) [
    | inl q ↦ rw (p, link_one, q) (refl, refl)
    | inr (r, q) ↦ rw (p, link_one, q) (ground arith)
  ]
]

pub link_all-variables :
    (addr : ℕ) (ids : List ℕ) (b : Build)
    → ((link_all addr ids b).video_tk ≡ b.video_tk) × ((link_all addr ids b).meta_tk ≡ b.meta_tk)
unfolding link_all
link_all-variables addr [] b = (refl, refl)
link_all-variables addr (id ∷ ids) b =
    let (v, m) = link_all-variables addr ids (link_one addr id b) in
    let (v', m') = link_one-variables addr id b in (v ∙ v', m ∙ m')
