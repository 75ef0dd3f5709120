-- ===== src/File/Linked.antt =====
-- src/mp4_track.c: what the links between tracks mean, and that a write keeps it.
use libmp.File.{
  track_find, track_find_by_id, store_track, is_null, reference_type_description,
  reference_type_chapters,
}
use libmp.File.Links.{
  Keeps, Kept, has, find-Keeps, find_by_id-Keeps, find-Kept, store-found, store-other, store-Keeps,
  some_eq, Kept-refl,
}
use libmp.Prelude.{
  List, ℕ, ◌≡◌, ◌==◌, inl, ==_iff, inr, some, ◌⊎◌, false, true, Bool-cases, ◌∙◌, sym, All, none,
  ◌∷◌, [],
}
use libmp.Track.{Track}
use libmp.Types.{TrackType}
use mathlib.Core.Path.{subst}

-- The link of a track `u` to a metadata track: that one describes `u`, or `u` is a video.
pub record MetadataLink (ts : List Track) (u : Track) (m : ℕ) : Type 0 where
  pub target : Track
  pub found : track_find ts m ≡ some target
  pub kind : target.kind ≡ TrackType.metadata
  pub reason :
      ((target.reference_type ≡ reference_type_description)
        × (has u.id target.reference_track_id ≡ true))
      ⊎ (u.kind ≡ TrackType.video)

-- The link of a track `u` to the track of its chapters, which `u` refers to
pub record ChapterLink (ts : List Track) (u : Track) (c : ℕ) : Type 0 where
  pub target : Track
  pub found : track_find ts c ≡ some target
  pub kind : target.kind ≡ TrackType.chapters
  pub reference : u.reference_type ≡ reference_type_chapters
  pub named : has target.id u.reference_track_id ≡ true

-- Every link of a track leads to a track that it may lead to.
pub record IsLinked (ts : List Track) : Type 0 where
  pub metadata :
      (a m : ℕ) (u : Track) → track_find ts a ≡ some u → u.metadata ≡ some m → MetadataLink ts u m
  pub chapters :
      (a c : ℕ) (u : Track) → track_find ts a ≡ some u → u.chapters ≡ some c → ChapterLink ts u c

-- The reference of the track at `a` to the identifier `id` has had its effect: the track that a
-- metadata track describes has a link, and a track of chapters is no longer one of text.
abbrev pub Serves : List Track → ℕ → ℕ → Type 0
Serves ts a id =
    (m r : Track)
    → track_find ts a ≡ some m
    → track_find_by_id ts id ≡ some r
    → (m.kind ≡ TrackType.metadata
        → m.reference_type ≡ reference_type_description
        → is_null r.metadata ≡ false)
      × (m.reference_type ≡ reference_type_chapters → ¬ (r.kind ≡ TrackType.text))

-- Every reference of every track has had its effect.
abbrev pub IsServed : List Track → Type 0
IsServed ts =
    (a id : ℕ) (m : Track)
    → track_find ts a ≡ some m
    → has id m.reference_track_id ≡ true
    → Serves ts a id

pub Kept-kind :
    (t u : Track) (k : TrackType) → Kept t u → ¬ (k ≡ TrackType.text) → t.kind ≡ k → u.kind ≡ k
Kept-kind t u k h other e = elim h.kind [ inl f ↦ f ∙ e | inr (f, _) ↦ absurd (other (sym e ∙ f)) ]

metadata_back : (t u : Track) → Kept t u → u.kind ≡ TrackType.metadata → t.kind ≡ TrackType.metadata
metadata_back t u h e = elim h.kind [ inl f ↦ sym f ∙ e | inr (_, f) ↦ absurd (cc) ]

text_back : (t u : Track) → Kept t u → u.kind ≡ TrackType.text → t.kind ≡ TrackType.text
text_back t u h e = elim h.kind [ inl f ↦ sym f ∙ e | inr (f, _) ↦ f ]

pub MetadataLink-Keeps :
    {ts us : List Track} (t u : Track) (m : ℕ)
    → Keeps ts us
    → Kept t u
    → MetadataLink ts t m
    → MetadataLink us u m
MetadataLink-Keeps t u m ks k l =
    let (v, f, kv) = find-Kept m l.target ks l.found in
    record {
      target = v;
      found = f;
      kind = Kept-kind l.target v TrackType.metadata kv (λ e. cc) l.kind;
      reason = elim l.reason [
        | inl (e, n) ↦
            let same = k.id in
            let refs = kv.reference_track_id in inl (kv.reference_type ∙ e, rw (same, refs) n)
        | inr e ↦ inr (Kept-kind t u TrackType.video k (λ e. cc) e)
      ];
    }

ChapterLink-Keeps :
    {ts us : List Track} (t u : Track) (c : ℕ)
    → Keeps ts us
    → Kept t u
    → ChapterLink ts t c
    → ChapterLink us u c
ChapterLink-Keeps t u c ks k l =
    let (v, f, kv) = find-Kept c l.target ks l.found in
    let same = kv.id in
    let refs = k.reference_track_id in
    record {
      target = v;
      found = f;
      kind = Kept-kind l.target v TrackType.chapters kv (λ e. cc) l.kind;
      reference = k.reference_type ∙ l.reference;
      named = rw (same, refs) l.named;
    }

pub Serves-Keeps : {ts us : List Track} (a id : ℕ) → Keeps ts us → Serves ts a id → Serves us a id
Serves-Keeps a id ks s m r e f =
    let (m', e', km) = find-Keeps a m ks e in
    let (r', f', kr) = find_by_id-Keeps id r ks f in
    let (one, two) = s m' r' e' f' in
    (
      λ h i. kr.metadata (one (metadata_back m' m km h) (sym km.reference_type ∙ i)),
      λ i h. two (sym km.reference_type ∙ i) (text_back r' r kr h),
    )

-- A track whose links are those of before, or right
pub record Relinked (ts us : List Track) (a : ℕ) (u : Track) : Type 0 where
  pub before : Track
  pub found : track_find ts a ≡ some before
  pub kept : Kept before u
  pub metadata : (m : ℕ) → u.metadata ≡ some m → (before.metadata ≡ some m) ⊎ MetadataLink us u m
  pub chapters : (c : ℕ) → u.chapters ≡ some c → (before.chapters ≡ some c) ⊎ ChapterLink us u c

pub relink :
    {ts us : List Track}
    → Keeps ts us
    → ((a : ℕ) (u : Track) → track_find us a ≡ some u → Relinked ts us a u)
    → IsLinked ts
    → IsLinked us
relink ks all h = record {
  metadata = λ a m u e n.
      let r = all a u e in
      elim (r.metadata m n) [
        | inl old ↦ MetadataLink-Keeps r.before u m ks r.kept (h.metadata a m r.before r.found old)
        | inr l ↦ l
      ];
  chapters = λ a c u e n.
      let r = all a u e in
      elim (r.chapters c n) [
        | inl old ↦ ChapterLink-Keeps r.before u c ks r.kept (h.chapters a c r.before r.found old)
        | inr l ↦ l
      ];
}

pub Relinked-same :
    (ts us : List Track) (a : ℕ) (u : Track) → track_find ts a ≡ some u → Relinked ts us a u
Relinked-same ts us a u e = record {
  before = u;
  found = e;
  kept = Kept-refl u;
  metadata = λ m n. inl n;
  chapters = λ c n. inl n;
}

-- The same, of whatever stands at the address
pub Relinked-at :
    (ts us : List Track) (b a : ℕ) (t u : Track)
    → track_find us b ≡ some t
    → Relinked ts us b t
    → b ≡ a
    → track_find us a ≡ some u
    → Relinked ts us a u
Relinked-at ts us b a t u f r here e =
    let same : t ≡ u = some_eq (sym (subst (λ x. track_find us x ≡ some t) here f) ∙ e) in
    subst (λ x. Relinked ts us a x) same (subst (λ x. Relinked ts us x t) here r)

-- One write, of a track whose links are right
pub store-IsLinked :
    (ts : List Track) (t : Track)
    → Relinked ts (store_track ts t) t.addr t
    → IsLinked ts
    → Keeps ts (store_track ts t) × IsLinked (store_track ts t)
store-IsLinked ts t r h =
    let ks = store-Keeps ts r.before t r.found r.kept in
    (
      ks,
      relink ks
          (λ a u e. elim (Bool-cases (t.addr == a)) [
            | inl p ↦
                Relinked-at ts (store_track ts t) t.addr a t u (store-found ts r.before t r.found) r
                  ((==_iff _ _).0 p) e
            | inr p ↦ Relinked-same ts (store_track ts t) a u (sym (store-other ts t a p) ∙ e)
          ])
          h,
    )

found-none :
    (ts : List Track) (a : ℕ) (u : Track)
    → All (λ t. (t.metadata ≡ none) × (t.chapters ≡ none)) ts
    → track_find ts a ≡ some u
    → (u.metadata ≡ none) × (u.chapters ≡ none)
unfolding track_find
found-none [] a u h e = absurd (cc e)
found-none (t ∷ ts) a u h e = elim (Bool-cases (t.addr == a)) [
  | inl p ↦ subst (λ x. (x.metadata ≡ none) × (x.chapters ≡ none)) (some_eq (rw p at e)) h.0
  | inr p ↦ found-none ts a u h.1 (rw p at e)
]

-- Tracks without links
pub none-IsLinked :
    (ts : List Track) → All (λ t. (t.metadata ≡ none) × (t.chapters ≡ none)) ts → IsLinked ts
none-IsLinked ts h = record {
  metadata = λ a m u e n. let (x, _) = found-none ts a u h e in absurd (cc (x, n));
  chapters = λ a c u e n. let (_, x) = found-none ts a u h e in absurd (cc (x, n));
}
