-- ===== src/File/Referred.antt =====
-- src/mp4_track.c: one reference from a track to another in `mp4_tracks_build`.
use libmp.File.{
  track_find, track_find_by_id, store_track, reference_type_description, reference_type_chapters,
  same_kind, link_chapters, link_found, Build,
}
use libmp.File.Links.{
  Kept, has, store-found, store-other, store-Keeps, some_eq, Keeps-refl, Keeps-trans,
}
use libmp.File.Linked.{ChapterLink, Relinked, relink, Relinked-same, Relinked-at}
use libmp.File.Registry.{all_apart}
use libmp.Prelude.{
  List, ℕ, ◌≡◌, ◌==◌, inl, refl, ==_iff, inr, some, false, true, Bool-cases, ◌∙◌, sym, arith, ◌&&◌,
}
use libmp.Track.{Track}
use libmp.Types.{TrackType}
use mathlib.Core.Path.{subst}
use libmp.File.Steps.{Round, Serves-at, describe, itself}

is_metadata : (k : TrackType) → same_kind k TrackType.metadata ≡ true → k ≡ TrackType.metadata
unfolding same_kind
is_metadata TrackType.unknown h = absurd (cc h)
is_metadata TrackType.video h = absurd (cc h)
is_metadata TrackType.audio h = absurd (cc h)
is_metadata TrackType.hint h = absurd (cc h)
is_metadata TrackType.metadata h = refl
is_metadata TrackType.text h = absurd (cc h)
is_metadata TrackType.chapters h = absurd (cc h)

is_text : (k : TrackType) → same_kind k TrackType.text ≡ true → k ≡ TrackType.text
unfolding same_kind
is_text TrackType.unknown h = absurd (cc h)
is_text TrackType.video h = absurd (cc h)
is_text TrackType.audio h = absurd (cc h)
is_text TrackType.hint h = absurd (cc h)
is_text TrackType.metadata h = absurd (cc h)
is_text TrackType.text h = refl
is_text TrackType.chapters h = absurd (cc h)

false-true : ¬ (false ≡ true)
false-true e = cc

module _ (ts : List Track) (apart : all_apart ts ≡ true) (id : ℕ) (t r : Track)
    (at_t : track_find ts t.addr ≡ some t) (at_r : track_find ts r.addr ≡ some r)
    (by_id : track_find_by_id ts id ≡ some r) (same_id : r.id ≡ id)
    (named : has id t.reference_track_id ≡ true) where
  another :
      t.reference_type ≡ reference_type_chapters
      → (t.addr == r.addr) ≡ false
      → r.kind ≡ TrackType.text
      → Round ts
          (store_track
            (store_track ts (record t { chapters = some r.addr }))
            (record r { kind = TrackType.chapters }))
          t.addr
          id
  another chap apart' kind =
      let t' : Track = record t { chapters = some r.addr } in
      let r' : Track = record r { kind = TrackType.chapters } in
      let mid = store_track ts t' in
      let us = store_track mid r' in
      let back : (r.addr == t.addr) ≡ false = ground (arith, apart') in
      let kept_t : Kept t t' = record {
        addr = refl;
        id = refl;
        reference_type = refl;
        reference_track_id = refl;
        kind = inl refl;
        metadata = λ h. h;
      } in
      let kept_r : Kept r r' = record {
        addr = refl;
        id = refl;
        reference_type = refl;
        reference_track_id = refl;
        kind = inr (kind, refl);
        metadata = λ h. h;
      } in
      let mid_r : track_find mid r.addr ≡ some r = store-other ts t' r.addr apart' ∙ at_r in
      let at_r' = store-found mid r r' mid_r in
      let at_t' : track_find us t.addr ≡ some t' =
        store-other mid r' t.addr back ∙ store-found ts t t' at_t in
      let ks = Keeps-trans (store-Keeps ts t t' at_t kept_t) (store-Keeps mid r r' mid_r kept_r) in
      let link : ChapterLink us t' r.addr = record {
        target = r';
        found = at_r';
        kind = refl;
        reference = chap;
        named = rw same_id named;
      } in
      let new_t : Relinked ts us t.addr t' = record {
        before = t;
        found = at_t;
        kept = kept_t;
        metadata = λ m n. inl n;
        chapters = λ c n. inr (subst (ChapterLink us t') (some_eq n) link);
      } in
      let new_r : Relinked ts us r.addr r' = record {
        before = r;
        found = at_r;
        kept = kept_r;
        metadata = λ m n. inl n;
        chapters = λ c n. inl n;
      } in
      record {
        keeps = ks;
        linked = relink ks (λ a u e. elim (Bool-cases (t.addr == a)) [
          | inl p ↦ Relinked-at ts us t.addr a t' u at_t' new_t ((==_iff _ _).0 p) e
          | inr p ↦ elim (Bool-cases (r.addr == a)) [
            | inl q ↦ Relinked-at ts us r.addr a r' u at_r' new_r ((==_iff _ _).0 q) e
            | inr q ↦
                Relinked-same ts us a u (sym (store-other mid r' a q ∙ store-other ts t' a p) ∙ e)
          ]
        ]);
        serves =
            Serves-at ts apart id t r at_t at_r by_id same_id named us t' r' ks at_t' at_r'
              (λ a b. absurd (omega (arith, b, chap)), λ a b. absurd (cc b));
      }

  to_chapters :
      t.reference_type ≡ reference_type_chapters
      → r.kind ≡ TrackType.text
      → Round ts (link_chapters t r ts) t.addr id
  unfolding link_chapters
  to_chapters chap kind = elim (Bool-cases (t.addr == r.addr)) [
    | inl p ↦
        let addr : t.addr ≡ r.addr = (==_iff _ _).0 p in
        rw p (
          itself ts apart id t r at_t at_r by_id same_id named chap
            (some_eq (sym at_t ∙ subst (λ a. track_find ts a ≡ some r) (sym addr) at_r)) kind)
    | inr p ↦ rw p (another chap p kind)
  ]

  -- The track that neither test lets through has nothing to do.
  unlinked :
      (t.reference_type == reference_type_description && same_kind t.kind TrackType.metadata)
        ≡ false
      → (t.reference_type == reference_type_chapters && same_kind r.kind TrackType.text) ≡ false
      → Round ts ts t.addr id
  unfolding same_kind
  unlinked not_metadata not_chapters = record {
    keeps = Keeps-refl ts;
    linked = λ h. h;
    serves =
        Serves-at ts apart id t r at_t at_r by_id same_id named ts t r (Keeps-refl ts) at_t at_r (
          λ a b. absurd (false-true (sym not_metadata ∙ rw (a, b) refl)),
          λ a b. absurd (false-true (sym not_chapters ∙ rw (a, b) refl)),
        );
  }

  pub found-Round : (b : Build) → b.tracks ≡ ts → Round ts (link_found t r b).tracks t.addr id
  unfolding link_found
  found-Round b same =
      elim (Bool-cases
        (t.reference_type == reference_type_description && same_kind t.kind TrackType.metadata)) [
          | inl p ↦
              rw (p, same)
                (describe ts apart id t r at_t at_r by_id same_id named (ground (arith, p))
                  (is_metadata t.kind (ground (arith, p))))
          | inr p ↦
              elim (Bool-cases
                (t.reference_type == reference_type_chapters && same_kind r.kind TrackType.text)) [
                  | inl q ↦
                      rw (p, q, same)
                        (to_chapters (ground (arith, q)) (is_text r.kind (ground (arith, q))))
                  | inr q ↦ rw (p, q, same) (unlinked p q)
                ]
        ]
