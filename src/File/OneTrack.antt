-- ===== src/File/OneTrack.antt =====
-- src/mp4_track.c: one round of `mp4_tracks_build`, for one track and its references.
use libmp.File.{link_all, count_track, build_one, store_track, Build, track_find}
use libmp.File.Links.{
  Keeps, Kept, has, find-Keeps, find-Kept, Keeps-trans, find-addr, store-found, some_eq,
  apart-Keeps,
}
use libmp.File.Linked.{IsLinked, Serves, store-IsLinked, Kept-kind}
use libmp.File.Rounds.{link_all-Rounds, link_all-variables}
use libmp.File.Registry.{all_apart}
use libmp.Prelude.{
  List, Bool, ℕ, ◌≡◌, ok, ok_eq, Option-cases, ◌∙◌, >>=-eq-ok, ◌==◌, sym, inl, refl, inr, some,
  true, ◌⊎◌, Option, guard, eproto, enomem, not, ap,
}
use libmp.Track.{Track}
use libmp.Build.{build_track, count_samples, fill_offsets, sum_counts, fill_times}
use libmp.Types.{TrackType}
use mathlib.Core.Path.{subst}

-- A build of one track fills in its offsets and times.
build_track-fills :
    (room₁ room₂ : Bool) (t t' : Track)
    → build_track room₁ room₂ t ≡ ok t'
    → (offsets times : List ℕ) × (t'
        ≡ record t { sample_offset = offsets; sample_decoding_time = times })
unfolding build_track
build_track-fills room₁ room₂ t t' e =
    let count = count_samples t.sample_to_chunk_entries t.chunk_count 1 0 0 in
    let (_, _, e1) = >>=-eq-ok (guard (count == t.sample_count) eproto) _ e in
    let (_, _, e2) = >>=-eq-ok (guard (not (count == 0)) eproto) _ e1 in
    let (_, _, e3) = >>=-eq-ok (guard room₁ enomem) _ e2 in
    let (offsets, _, e4) = >>=-eq-ok (fill_offsets t.sample_to_chunk_entries t 1 0 0 0) _ e3 in
    let counted = sum_counts t.time_to_sample_entries 0 == t.sample_count in
    let (_, _, e5) = >>=-eq-ok (guard counted eproto) _ e4 in
    let (_, _, e6) = >>=-eq-ok (guard room₂ enomem) _ e5 in
    let (times, _, e7) = >>=-eq-ok (fill_times t.time_to_sample_entries 0 0 t.sample_count) _ e6 in
    (offsets, times, sym (ok_eq e7))

-- The variable of a kind holds the address of a track of that kind.
abbrev pub Holds : List Track → Option ℕ → TrackType → Type 0
Holds ts variable kind =
    (a : ℕ) → variable ≡ some a → (t : Track) × (track_find ts a ≡ some t) × (t.kind ≡ kind)

pub record IsBuilding (b : Build) : Type 0 where
  pub apart : all_apart b.tracks ≡ true
  pub linked : IsLinked b.tracks
  pub video : Holds b.tracks b.video_tk TrackType.video
  pub metadata : Holds b.tracks b.meta_tk TrackType.metadata

Holds-Keeps :
    {ts us : List Track} (variable : Option ℕ) (kind : TrackType)
    → Keeps ts us
    → ¬ (kind ≡ TrackType.text)
    → Holds ts variable kind
    → Holds us variable kind
Holds-Keeps variable kind ks other h a e =
    let (t, f, k) = h a e in
    let (u, g, kept) = find-Kept a t ks f in (u, g, Kept-kind t u kind kept other k)

abbrev Counted : Track → Build → Build → Type 0
Counted t b c =
    (c.tracks ≡ b.tracks)
    × ((a : ℕ)
        → c.video_tk ≡ some a
        → (b.video_tk ≡ some a) ⊎ ((t.addr ≡ a) × (t.kind ≡ TrackType.video)))
    × ((a : ℕ)
        → c.meta_tk ≡ some a
        → (b.meta_tk ≡ some a) ⊎ ((t.addr ≡ a) × (t.kind ≡ TrackType.metadata)))

count_track-Counted :
    (k : TrackType) (t : Track) (b : Build) → t.kind ≡ k → Counted t b (count_track t b)
unfolding count_track
count_track-Counted TrackType.video t b e = rw e (refl, λ a v. inr (some_eq v, refl), λ a v. inl v)
count_track-Counted TrackType.metadata t b e =
    rw e (refl, λ a v. inl v, λ a v. inr (some_eq v, refl))
count_track-Counted TrackType.unknown t b e = rw e (refl, λ a v. inl v, λ a v. inl v)
count_track-Counted TrackType.audio t b e = rw e (refl, λ a v. inl v, λ a v. inl v)
count_track-Counted TrackType.hint t b e = rw e (refl, λ a v. inl v, λ a v. inl v)
count_track-Counted TrackType.text t b e = rw e (refl, λ a v. inl v, λ a v. inl v)
count_track-Counted TrackType.chapters t b e = rw e (refl, λ a v. inl v, λ a v. inl v)

-- What the build of one track, and its references, does
pub record Built (b c : Build) (addr : ℕ) : Type 0 where
  pub keeps : Keeps b.tracks c.tracks
  pub building : IsBuilding c
  pub serves :
      (m : Track) (id : ℕ)
      → track_find c.tracks addr ≡ some m
      → has id m.reference_track_id ≡ true
      → Serves c.tracks addr id

-- The write of a track that was built
filled :
    (ts : List Track) (addr : ℕ) (t t' : Track) (offsets times : List ℕ)
    → t' ≡ record t { sample_offset = offsets; sample_decoding_time = times }
    → track_find ts addr ≡ some t
    → IsLinked ts
    → Kept t t'
      × Keeps ts (store_track ts t')
      × IsLinked (store_track ts t')
      × (track_find (store_track ts t') addr ≡ some t')
filled ts addr t t' offsets times e f h =
    let u : Track = record t { sample_offset = offsets; sample_decoding_time = times } in
    let kept : Kept t u = record {
      addr = refl;
      id = refl;
      reference_type = refl;
      reference_track_id = refl;
      kind = inl refl;
      metadata = λ h. h;
    } in
    let here = find-addr ts addr t f in
    let at_u = subst (λ a. track_find ts a ≡ some t) (sym here) f in
    let (ks, linked) =
      store-IsLinked ts u
        record {
          before = t;
          found = at_u;
          kept = kept;
          metadata = λ m n. inl n;
          chapters = λ c n. inl n;
        }
        h in
    rw e (
      kept,
      ks,
      linked,
      subst (λ a. track_find (store_track ts u) a ≡ some u) here (store-found ts t u at_u),
    )

refs-Built :
    (addr : ℕ) (b c : Build) (t : Track)
    → Keeps b.tracks c.tracks
    → IsBuilding c
    → track_find c.tracks addr ≡ some t
    → Built b (link_all addr t.reference_track_id c) addr
refs-Built addr b c t ks i there =
    let ids = t.reference_track_id in
    let r = link_all-Rounds addr ids c i.apart (λ u id e h.
      let same : t ≡ u = some_eq (sym there ∙ e) in
      subst (λ x. has id x.reference_track_id ≡ true) same h) in
    let (video, meta) = link_all-variables addr ids c in
    record {
      keeps = Keeps-trans ks r.keeps;
      building = record {
        apart = apart-Keeps r.keeps i.apart;
        linked = r.linked i.linked;
        video = rw video (Holds-Keeps c.video_tk TrackType.video r.keeps (λ e. cc) i.video);
        metadata = rw meta (Holds-Keeps c.meta_tk TrackType.metadata r.keeps (λ e. cc) i.metadata);
      };
      serves = λ m id e h.
          let (t', e', k) = find-Keeps addr m r.keeps e in
          let same : t ≡ t' = some_eq (sym there ∙ e') in
          let refs = k.reference_track_id ∙ ap (λ x. x.reference_track_id) (sym same) in
          r.serves id (rw refs at h);
    }

-- The variables once a track was counted
counted-IsBuilding :
    (b : Build) (t : Track) (ts : List Track) (addr : ℕ)
    → IsBuilding b
    → Keeps b.tracks ts
    → IsLinked ts
    → track_find ts t.addr ≡ some t
    → IsBuilding (count_track t (record b { tracks = ts }))
counted-IsBuilding b t ts addr i ks linked there =
    let start : Build = record b { tracks = ts } in
    let (same, video, meta) = count_track-Counted t.kind t start refl in
    record {
      apart = rw same (apart-Keeps ks i.apart);
      linked = rw same linked;
      video = λ a e. rw same (elim (video a e) [
        | inl old ↦ Holds-Keeps b.video_tk TrackType.video ks (λ x. cc) i.video a old
        | inr (here, kind) ↦ (t, subst (λ x. track_find ts x ≡ some t) here there, kind)
      ]);
      metadata = λ a e. rw same (elim (meta a e) [
        | inl old ↦ Holds-Keeps b.meta_tk TrackType.metadata ks (λ x. cc) i.metadata a old
        | inr (here, kind) ↦ (t, subst (λ x. track_find ts x ≡ some t) here there, kind)
      ]);
    }

pub build_one-Built :
    (rooms : Bool × Bool) (addr : ℕ) (b c : Build)
    → IsBuilding b
    → build_one rooms addr b ≡ ok c
    → Built b c addr
unfolding build_one
build_one-Built rooms addr b c i e = elim (Option-cases (track_find b.tracks addr)) [
  | inl p ↦ absurd (cc (rw (p, build_one) at e))
  | inr (t, p) ↦
      let (t', q, r) = >>=-eq-ok (build_track rooms.0 rooms.1 t) _ (rw (p, build_one) at e) in
      let (offsets, times, same) = build_track-fills rooms.0 rooms.1 t t' q in
      let (kept, ks, linked, there) = filled b.tracks addr t t' offsets times same p i.linked in
      let ts = store_track b.tracks t' in
      let start : Build = record b { tracks = ts } in
      let counted = (count_track-Counted t'.kind t' start refl).0 in
      let here = find-addr ts addr t' there in
      let there' = subst (λ a. track_find ts a ≡ some t') (sym here) there in
      subst (λ x. Built b x addr) (ok_eq r)
        (refs-Built addr b (count_track t' start) t' (rw counted ks)
          (counted-IsBuilding b t' ts addr i ks linked there') (rw counted there))
]
