-- ===== src/File/Steps.antt =====
-- src/mp4_track.c: the writes of `mp4_tracks_build` that link one track.
use libmp.File.{
  track_find, track_find_by_id, store_track, is_null, reference_type_description,
  reference_type_chapters,
}
use libmp.File.Links.{
  Keeps, Kept, has, find_by_id-Keeps, store-found, store-Keeps, some_eq, find-find_by_id,
  apart-Keeps, find-Kept,
}
use libmp.File.Linked.{
  MetadataLink, ChapterLink, IsLinked, Serves, store-IsLinked, MetadataLink-Keeps,
}
use libmp.File.Registry.{all_apart}
use libmp.Prelude.{List, ℕ, ◌≡◌, inl, refl, inr, some, false, true, ◌∙◌, sym, arith}
use libmp.Track.{Track}
use libmp.Types.{TrackType}
use mathlib.Core.Path.{subst}

-- What a round does: it keeps the tracks and their links, and the reference has its effect.
pub record Round (ts us : List Track) (a id : ℕ) : Type 0 where
  pub keeps : Keeps ts us
  pub linked : IsLinked ts → IsLinked us
  pub serves : Serves us a id

module _ (ts : List Track) (apart : all_apart ts ≡ true) (id : ℕ) (t r : Track)
    (at_t : track_find ts t.addr ≡ some t) (at_r : track_find ts r.addr ≡ some r)
    (by_id : track_find_by_id ts id ≡ some r) (same_id : r.id ≡ id)
    (named : has id t.reference_track_id ≡ true) where
  -- What stands at the two places behind a round is what the round left there.
  pub Serves-at :
      (us : List Track) (t' r' : Track)
      → Keeps ts us
      → track_find us t.addr ≡ some t'
      → track_find us r.addr ≡ some r'
      → (t'.kind ≡ TrackType.metadata
          → t'.reference_type ≡ reference_type_description
          → is_null r'.metadata ≡ false)
        × (t'.reference_type ≡ reference_type_chapters → ¬ (r'.kind ≡ TrackType.text))
      → Serves us t.addr id
  Serves-at us t' r' ks at_t' at_r' h m x e f =
      let (x', f', k) = find_by_id-Keeps id x ks f in
      let same : r ≡ x' = some_eq (sym by_id ∙ f') in
      let addr : x.addr ≡ r.addr = subst (λ y. x.addr ≡ y.addr) (sym same) k.addr in
      let at_x = (find-find_by_id us id x (apart-Keeps ks apart) f).0 in
      let at_x' = subst (λ a. track_find us a ≡ some x) addr at_x in
      let same_r : r' ≡ x = some_eq (sym at_r' ∙ at_x') in
      let same_t : t' ≡ m = some_eq (sym at_t' ∙ e) in rw (← same_r, ← same_t) h

  pub describe :
      t.reference_type ≡ reference_type_description
      → t.kind ≡ TrackType.metadata
      → Round ts (store_track ts (record r { metadata = some t.addr })) t.addr id
  unfolding is_null
  describe desc kind =
      let r' : Track = record r { metadata = some t.addr } in
      let us = store_track ts r' in
      let kept : Kept r r' = record {
        addr = refl;
        id = refl;
        reference_type = refl;
        reference_track_id = refl;
        kind = inl refl;
        metadata = λ h. refl;
      } in
      let ks = store-Keeps ts r r' at_r kept in
      let link : MetadataLink ts r t.addr = record {
        target = t;
        found = at_t;
        kind = kind;
        reason = inl (desc, rw same_id named);
      } in
      let (t', e, k) = find-Kept t.addr t ks at_t in
      record {
        keeps = ks;
        linked = λ h.
            (store-IsLinked ts r'
              record {
                before = r;
                found = at_r;
                kept = kept;
                metadata = λ m n. inr (
                    subst (MetadataLink us r') (some_eq n)
                      (MetadataLink-Keeps r r' t.addr ks kept link));
                chapters = λ c n. inl n;
              }
              h).1;
        serves =
            Serves-at us t' r' ks e (store-found ts r r' at_r)
              (λ a b. refl, λ a. absurd (omega (arith, a, k.reference_type, desc)));
      }

  pub itself :
      t.reference_type ≡ reference_type_chapters
      → t ≡ r
      → r.kind ≡ TrackType.text
      → Round ts
          (store_track ts (record t { chapters = some r.addr; kind = TrackType.chapters }))
          t.addr
          id
  itself chap same kind =
      let t' : Track = record t { chapters = some r.addr; kind = TrackType.chapters } in
      let us = store_track ts t' in
      let text : t.kind ≡ TrackType.text = rw same kind in
      let kept : Kept t t' = record {
        addr = refl;
        id = refl;
        reference_type = refl;
        reference_track_id = refl;
        kind = inr (text, refl);
        metadata = λ h. h;
      } in
      let there = store-found ts t t' at_t in
      let same_addr : t.addr ≡ r.addr = rw same refl in
      let there' = subst (λ a. track_find us a ≡ some t') same_addr there in
      let t_id : t.id ≡ id = rw same same_id in
      let link : ChapterLink us t' r.addr = record {
        target = t';
        found = there';
        kind = refl;
        reference = chap;
        named = rw t_id named;
      } in
      record {
        keeps = store-Keeps ts t t' at_t kept;
        linked = λ h.
            (store-IsLinked ts t'
              record {
                before = t;
                found = at_t;
                kept = kept;
                metadata = λ m n. inl n;
                chapters = λ c n. inr (subst (ChapterLink us t') (some_eq n) link);
              }
              h).1;
        serves =
            Serves-at us t' t' (store-Keeps ts t t' at_t kept) there there'
              (λ a b. absurd (cc a), λ a b. absurd (cc b));
      }
