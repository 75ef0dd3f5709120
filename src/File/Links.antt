-- ===== src/File/Links.antt =====
-- src/mp4_track.c: how the tracks of a file change while `mp4_tracks_build` links them.
use libmp.File.{track_find, track_find_by_id, store_track, is_null}
use libmp.File.Registry.{is_fresh, all_apart}
use libmp.Prelude.{
  List, Bool, ℕ, ◌≡◌, map, arith, ◌∷◌, ◌∙◌, ◌==◌, sym, [], inl, refl, ==_iff, inr, some, ◌⊎◌, false,
  true, Bool-cases, ◌||◌,
}
use libmp.Track.{Track}
use libmp.Types.{TrackType}
use mathlib.Core.Path.{subst}

abbrev pub addresses : List Track → List ℕ
addresses ts = map (λ t. t.addr) ts

abbrev pub has : ℕ → List ℕ → Bool
has x [] = false
has x (y ∷ ys) = y == x || has x ys

pub some_eq : {A : Type 0} {a b : A} → some a ≡ some b → a ≡ b
some_eq e = cc

-- What stays as it was in a track: only a text track becomes one of chapters, and a link to a
-- metadata track is not taken back.
pub record Kept (t u : Track) : Type 0 where
  pub addr : u.addr ≡ t.addr
  pub id : u.id ≡ t.id
  pub reference_type : u.reference_type ≡ t.reference_type
  pub reference_track_id : u.reference_track_id ≡ t.reference_track_id
  pub kind : (u.kind ≡ t.kind) ⊎ ((t.kind ≡ TrackType.text) × (u.kind ≡ TrackType.chapters))
  pub metadata : is_null t.metadata ≡ false → is_null u.metadata ≡ false

pub data Keeps : List Track → List Track → Type 0 where
  nil : Keeps [] []
  cons : {t u : Track} {ts us : List Track} → Kept t u → Keeps ts us → Keeps (t ∷ ts) (u ∷ us)

pub Kept-refl : (t : Track) → Kept t t
Kept-refl t = record {
  addr = refl;
  id = refl;
  reference_type = refl;
  reference_track_id = refl;
  kind = inl refl;
  metadata = λ h. h;
}

Kept-trans : (t u v : Track) → Kept t u → Kept u v → Kept t v
Kept-trans t u v k l = record {
  addr = l.addr ∙ k.addr;
  id = l.id ∙ k.id;
  reference_type = l.reference_type ∙ k.reference_type;
  reference_track_id = l.reference_track_id ∙ k.reference_track_id;
  kind = elim l.kind [
    | inl e ↦ elim k.kind [ inl f ↦ inl (e ∙ f) | inr (a, b) ↦ inr (a, e ∙ b) ]
    | inr (e, g) ↦ elim k.kind [ inl f ↦ inr (sym f ∙ e, g) | inr (a, b) ↦ inr (a, g) ]
  ];
  metadata = λ h. l.metadata (k.metadata h);
}

pub Keeps-refl : (ts : List Track) → Keeps ts ts
Keeps-refl [] = Keeps.nil
Keeps-refl (t ∷ ts) = Keeps.cons (Kept-refl t) (Keeps-refl ts)

pub Keeps-trans : {ts us vs : List Track} → Keeps ts us → Keeps us vs → Keeps ts vs
Keeps-trans Keeps.nil Keeps.nil = Keeps.nil
Keeps-trans (Keeps.cons k ks) (Keeps.cons l ls) =
    Keeps.cons (Kept-trans _ _ _ k l) (Keeps-trans ks ls)

pub Keeps-addresses : {ts us : List Track} → Keeps ts us → addresses us ≡ addresses ts
Keeps-addresses Keeps.nil = refl
Keeps-addresses (Keeps.cons k ks) = let a = k.addr in let b = Keeps-addresses ks in cc

fresh-Keeps :
    {ts us : List Track} (addr : ℕ)
    → Keeps ts us
    → is_fresh addr ts ≡ true
    → is_fresh addr us ≡ true
fresh-Keeps addr Keeps.nil h = refl
fresh-Keeps addr (Keeps.cons k ks) h = ground (arith, k.addr, fresh-Keeps addr ks)

pub apart-Keeps : {ts us : List Track} → Keeps ts us → all_apart ts ≡ true → all_apart us ≡ true
apart-Keeps Keeps.nil h = refl
apart-Keeps (Keeps.cons {t = t} k ks) h =
    let same = k.addr in rw same (ground (arith, fresh-Keeps t.addr ks, apart-Keeps ks))

-- What stands at an address, or under an identifier, stood there before.
pub find-Keeps :
    {ts us : List Track} (a : ℕ) (u : Track)
    → Keeps ts us
    → track_find us a ≡ some u
    → (t : Track) × (track_find ts a ≡ some t) × Kept t u
unfolding track_find
find-Keeps a u Keeps.nil e = absurd (cc e)
find-Keeps a u (Keeps.cons {t = t} {u = v} k ks) e = elim (Bool-cases (t.addr == a)) [
  | inl p ↦
      let same = k.addr in
      let q : (v.addr == a) ≡ true = rw same p in
      let e' = rw q at e in (t, rw p refl, subst (Kept t) (some_eq e') k)
  | inr p ↦
      let same = k.addr in let (w, f, l) = find-Keeps a u ks (rw (same, p) at e) in (w, rw p f, l)
]

pub find_by_id-Keeps :
    {ts us : List Track} (id : ℕ) (u : Track)
    → Keeps ts us
    → track_find_by_id us id ≡ some u
    → (t : Track) × (track_find_by_id ts id ≡ some t) × Kept t u
unfolding track_find_by_id
find_by_id-Keeps id u Keeps.nil e = absurd (cc e)
find_by_id-Keeps id u (Keeps.cons {t = t} {u = v} k ks) e = elim (Bool-cases (t.id == id)) [
  | inl p ↦
      let same = k.id in
      let q : (v.id == id) ≡ true = rw same p in
      let e' = rw q at e in (t, rw p refl, subst (Kept t) (some_eq e') k)
  | inr p ↦
      let same = k.id in
      let (w, f, l) = find_by_id-Keeps id u ks (rw (same, p) at e) in (w, rw p f, l)
]

-- What stands at an address stays there.
pub find-Kept :
    {ts us : List Track} (a : ℕ) (t : Track)
    → Keeps ts us
    → track_find ts a ≡ some t
    → (u : Track) × (track_find us a ≡ some u) × Kept t u
unfolding track_find
find-Kept a t Keeps.nil e = absurd (cc e)
find-Kept a t (Keeps.cons {t = v} {u = u} k ks) e = elim (Bool-cases (v.addr == a)) [
  | inl p ↦
      let same = k.addr in
      let e' = rw p at e in (u, rw (same, p) refl, subst (λ x. Kept x u) (some_eq e') k)
  | inr p ↦
      let same = k.addr in let (w, f, l) = find-Kept a t ks (rw p at e) in (w, rw (same, p) f, l)
]

pub find-addr : (ts : List Track) (a : ℕ) (t : Track) → track_find ts a ≡ some t → t.addr ≡ a
unfolding track_find
find-addr [] a t e = absurd (cc e)
find-addr (u ∷ us) a t e = elim (Bool-cases (u.addr == a)) [
  | inl p ↦ subst (λ x. x.addr ≡ a) (some_eq (rw p at e)) ((==_iff _ _).0 p)
  | inr p ↦ find-addr us a t (rw p at e)
]

-- A write through a pointer to a track is found there, and nowhere else.
pub store-found :
    (ts : List Track) (t u : Track)
    → track_find ts u.addr ≡ some t
    → track_find (store_track ts u) u.addr ≡ some u
unfolding track_find store_track
store-found [] t u e = absurd (cc e)
store-found (v ∷ vs) t u e =
    let self : (u.addr == u.addr) ≡ true = ground arith in
    elim (Bool-cases (v.addr == u.addr)) [
      | inl p ↦ rw (p, self) refl
      | inr p ↦ rw (p, p) (store-found vs t u (rw p at e))
    ]

pub store-other :
    (ts : List Track) (u : Track) (a : ℕ)
    → (u.addr == a) ≡ false
    → track_find (store_track ts u) a ≡ track_find ts a
unfolding track_find store_track
store-other [] u a h = refl
store-other (v ∷ vs) u a h = elim (Bool-cases (v.addr == u.addr)) [
  | inl p ↦ let same : v.addr ≡ u.addr = (==_iff _ _).0 p in rw (p, h, same, h) refl
  | inr p ↦ elim (Bool-cases (v.addr == a)) [
    | inl q ↦ rw (p, q) refl
    | inr q ↦ rw (p, q) (store-other vs u a h)
  ]
]

pub store-Keeps :
    (ts : List Track) (t u : Track)
    → track_find ts u.addr ≡ some t
    → Kept t u
    → Keeps ts (store_track ts u)
unfolding track_find store_track
store-Keeps [] t u e k = absurd (cc e)
store-Keeps (v ∷ vs) t u e k = elim (Bool-cases (v.addr == u.addr)) [
  | inl p ↦ rw p (Keeps.cons (subst (λ x. Kept x u) (sym (some_eq (rw p at e))) k) (Keeps-refl vs))
  | inr p ↦ rw p (Keeps.cons (Kept-refl v) (store-Keeps vs t u (rw p at e) k))
]

not_fresh :
    (ts : List Track) (id : ℕ) (t : Track) (a : ℕ)
    → track_find_by_id ts id ≡ some t
    → is_fresh a ts ≡ true
    → (a == t.addr) ≡ false
unfolding track_find_by_id
not_fresh [] id t a e h = absurd (cc e)
not_fresh (u ∷ us) id t a e h = elim (Bool-cases (u.id == id)) [
  | inl p ↦ let same = some_eq (rw p at e) in rw (← same) (ground arith)
  | inr p ↦ not_fresh us id t a (rw p at e) (ground arith)
]

-- With addresses apart, the track under an identifier is the one at its address.
pub find-find_by_id :
    (ts : List Track) (id : ℕ) (t : Track)
    → all_apart ts ≡ true
    → track_find_by_id ts id ≡ some t
    → (track_find ts t.addr ≡ some t) × (t.id ≡ id)
unfolding track_find track_find_by_id
find-find_by_id [] id t h e = absurd (cc e)
find-find_by_id (u ∷ us) id t h e = elim (Bool-cases (u.id == id)) [
  | inl p ↦
      let same = some_eq (rw p at e) in
      let self : (u.addr == u.addr) ≡ true = ground arith in
      rw (← same) (rw self refl, (==_iff _ _).0 p)
  | inr p ↦
      let (f, g) = find-find_by_id us id t (ground arith) (rw p at e) in
      let other = not_fresh us id t u.addr (rw p at e) (ground arith) in (rw other f, g)
]
