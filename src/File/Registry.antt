-- ===== src/File/Registry.antt =====
-- src/mp4_track.c: the tracks of a file as a registry, where each address stands once.
use libmp.File.{
  Mp4File, list_del, track_find, track_find_by_idx, track_remove, track_add, track_new,
}
use libmp.Prelude.{
  List, ℕ, length, Option-cases, ◌++◌, inl, ◌≡◌, Bool, ◌+◌, true, some, inr, ◌∷◌, get_elem?, [],
  ◌<◌, not, arith, suc, ◌&&◌, ◌==◌, ◌^◌, refl, zero, ok, ◌-◌, sub32, length-append, add32,
}
use libmp.Track.{Track}

abbrev pub is_fresh : ℕ → List Track → Bool
is_fresh addr [] = true
is_fresh addr (t ∷ ts) = not (t.addr == addr) && is_fresh addr ts

abbrev pub all_apart : List Track → Bool
all_apart [] = true
all_apart (t ∷ ts) = is_fresh t.addr ts && all_apart ts

-- The count is that of the list, and no two tracks have one address.
pub record IsRegistry (f : Mp4File) : Type 0 where
  pub counted : length f.tracks ≡ f.track_count
  pub apart : all_apart f.tracks ≡ true
  pub few : f.track_count < 2 ^ 32

fresh-append :
    (ts : List Track) (t : Track) (addr : ℕ)
    → is_fresh addr (ts ++ (t ∷ [])) ≡ (is_fresh addr ts && not (t.addr == addr))
fresh-append [] t addr = ground arith
fresh-append (u ∷ us) t addr = ground (arith, fresh-append us t addr)

apart-append :
    (ts : List Track) (t : Track)
    → is_fresh t.addr ts ≡ true
    → all_apart ts ≡ true
    → all_apart (ts ++ (t ∷ [])) ≡ true
apart-append [] t h a = refl
apart-append (u ∷ us) t h a = ground (arith, apart-append us t, fresh-append us t u.addr)

-- Adding a track at an address that no track has keeps the registry (a count that is that of the
-- list, and addresses that are apart), as long as the count does not wrap.
pub track_add-IsRegistry :
    (f : Mp4File) (addr : ℕ)
    → IsRegistry f
    → is_fresh addr f.tracks ≡ true
    → f.track_count < 2 ^ 32 - 1
    → IsRegistry (track_add (some addr) f).1
unfolding track_add track_new
track_add-IsRegistry f addr r h c = record {
  counted = omega (arith, length-append f.tracks (track_new addr ∷ []), r.counted);
  apart = apart-append f.tracks (track_new addr) h r.apart;
  few = omega arith;
}

list_del-fresh :
    (ts : List Track) (addr a : ℕ) → is_fresh a ts ≡ true → is_fresh a (list_del ts addr) ≡ true
unfolding list_del
list_del-fresh [] addr a h = refl
list_del-fresh (t ∷ ts) addr a h = ground (arith, list_del-fresh ts addr a)

list_del-apart :
    (ts : List Track) (addr : ℕ) → all_apart ts ≡ true → all_apart (list_del ts addr) ≡ true
unfolding list_del
list_del-apart [] addr h = refl
list_del-apart (t ∷ ts) addr h =
    ground (arith, list_del-apart ts addr, list_del-fresh ts addr t.addr)

length-list_del :
    (ts : List Track) (addr : ℕ) (t : Track)
    → track_find ts addr ≡ some t
    → suc (length (list_del ts addr)) ≡ length ts
unfolding list_del track_find
length-list_del [] addr t h = cc
length-list_del (u ∷ us) addr t h = ground (arith, length-list_del us addr t)

-- Removing a track keeps the registry, whether the track is one of the file or not.
pub track_remove-IsRegistry :
    (f : Mp4File) (addr : ℕ) → IsRegistry f → IsRegistry (track_remove f addr).1
unfolding track_remove
track_remove-IsRegistry f addr r = elim (Option-cases (track_find f.tracks addr)) [
  | inl p ↦ rw (p, track_remove) r
  | inr (t, p) ↦
      rw (p, track_remove)
        record {
          counted = omega (arith, length-list_del f.tracks addr t p, r.counted, r.few);
          apart = list_del-apart f.tracks addr r.apart;
          few = omega arith;
        }
]

find-append :
    (ts : List Track) (t : Track)
    → is_fresh t.addr ts ≡ true
    → (track_find (ts ++ (t ∷ [])) t.addr ≡ some t) × (list_del (ts ++ (t ∷ [])) t.addr ≡ ts)
unfolding track_find list_del
find-append [] t h = ground arith
find-append (u ∷ us) t h = ground (arith, find-append us t)

-- If no track of the file has the address, and the count fits 32 bits, then adding a track there
-- and removing it gives the file back as it was.
pub track_remove-track_add :
    (f : Mp4File) (addr : ℕ)
    → is_fresh addr f.tracks ≡ true
    → f.track_count < 2 ^ 32
    → track_remove (track_add (some addr) f).1 addr ≡ (ok tt, f)
unfolding track_add track_new track_remove
track_remove-track_add f addr h c =
    let (found, left) = find-append f.tracks (track_new addr) h in
    let same : sub32 (add32 f.track_count 1) 1 ≡ f.track_count = omega arith in
    rw (found, track_remove, left, same) refl

-- The search by position, at a track that is counted as number `k`, finds the track that stands `i`
-- behind it for the position `k + i`, and none past the end of the list.
pub track_find_by_idx-get_elem? :
    (ts : List Track) (k i : ℕ) → track_find_by_idx ts k (k + i) ≡ get_elem? ts i
unfolding track_find_by_idx
track_find_by_idx-get_elem? [] k i = refl
track_find_by_idx-get_elem? (t ∷ ts) k zero = ground arith
track_find_by_idx-get_elem? (t ∷ ts) k (suc i) =
    ground (arith, track_find_by_idx-get_elem? ts (k + 1) i)
