-- ===== src/Mux/Metadata/Lookup.antt =====
-- What is found under a key after metadata was added.
use libmp.Mux.Metadata.{
  put, same_text, storage_of, get_alternate_metadata_key, find_alternate, alternate_keys,
  add_metadata, add_one, after_first, add_alternate, after_alternate,
}
use libmp.Prelude.{
  List, Bool, ℕ, ◌≡◌, Option, if◌then◌else◌, true, some, none, ◌↔◌, false, ◌∷◌, [], arith, refl,
  ◌&&◌, not, ok, Res-cases, ◌≢◌, inl, Option-cases, inr,
}
use libmp.Mux.{MuxMetadata, Storage}

pub lookup_value : List ℕ → List MuxMetadata → Option (List ℕ)
lookup_value key [] = none
lookup_value key (m ∷ ms) = if same_text key m.key then some m.value else lookup_value key ms

pub same_text_iff : (a b : List ℕ) → (same_text a b ≡ true) ↔ (a ≡ b)
unfolding same_text
same_text_iff [] [] = (λ e. refl, λ e. refl)
same_text_iff [] (y ∷ ys) = (λ e. cc, λ e. cc)
same_text_iff (x ∷ xs) [] = (λ e. cc, λ e. cc)
same_text_iff (x ∷ xs) (y ∷ ys) = ground (arith, same_text_iff xs ys)

-- What a call stores under the key: the user's value always, an alternate one if none is there.
abbrev pub after_put : Bool → List ℕ → Option (List ℕ) → Option (List ℕ)
after_put true value old = some value
after_put false value none = some value
after_put false value (some w) = some w

lookup-put :
    (user : Bool) (key value : List ℕ) (storage : Storage) (ms : List MuxMetadata) (k : List ℕ)
    → lookup_value k (put user key value storage ms).0
      ≡ (if same_text k key then after_put user value (lookup_value k ms) else lookup_value k ms)
unfolding put lookup_value
lookup-put true key value storage [] k = refl
lookup-put false key value storage [] k = refl
lookup-put user key value storage (m ∷ ms) k = ground (
  arith,
  lookup-put user key value storage ms k,
  same_text_iff key m.key,
  same_text_iff k m.key,
  same_text_iff k key,
)

-- A pair of keys that are not the same, each with a place to be stored.
is_stored : List ℕ → Bool
is_stored key = elim (storage_of key) [ ok s ↦ true | _ ↦ false ]

good_pair : List ℕ × List ℕ → Bool
good_pair (base, alt) =
    not (same_text base alt) && (not (same_text alt base) && (is_stored base && is_stored alt))

all_good : List (List ℕ × List ℕ) → Bool
all_good [] = true
all_good (p ∷ ps) = good_pair p && all_good ps

find_alternate_good :
    (keys : List (List ℕ × List ℕ)) (key alt : List ℕ)
    → all_good keys ≡ true
    → find_alternate keys key ≡ some alt
    → (same_text alt key ≡ false) × (is_stored alt ≡ true)
unfolding find_alternate all_good good_pair
find_alternate_good [] key alt h e = cc
find_alternate_good ((base, other) ∷ keys) key alt h e =
    ground
      (arith, find_alternate_good keys key alt, same_text_iff key base, same_text_iff key other)

-- An alternate key is another key, and has a place to be stored.
alternate_good :
    (key alt : List ℕ)
    → get_alternate_metadata_key key ≡ some alt
    → (same_text alt key ≡ false) × (is_stored alt ≡ true)
unfolding get_alternate_metadata_key all_good good_pair is_stored storage_of same_text
alternate_good key alt e = find_alternate_good alternate_keys key alt refl e

is_stored-ok : (key : List ℕ) → is_stored key ≡ true → (s : Storage) × (storage_of key ≡ ok s)
unfolding is_stored
is_stored-ok key h = elim (Res-cases (storage_of key)) [
  | inl found ↦ found
  | inr (inl (e, p)) ↦ absurd (cc (rw (p, is_stored) at h))
  | inr (inr p) ↦ absurd (cc (rw (p, is_stored) at h))
]

add_one_ok :
    (user : Bool) (key value : List ℕ) (ms : List MuxMetadata) (s : Storage)
    → storage_of key ≡ ok s
    → add_one true user key value ms ≡ ok (put user key value s ms)
unfolding add_one
add_one_ok user key value ms s e = rw e (ground arith)

same_text_refl : (key : List ℕ) → same_text key key ≡ true
same_text_refl key = (same_text_iff key key).1 refl

-- What the list holds after the call, in terms of what it held before.
abbrev pub Stored : List ℕ → List ℕ → List MuxMetadata → List MuxMetadata → Type 0
Stored key value ms ms' =
    (lookup_value key ms' ≡ some value)
    × ((alt : List ℕ)
        → get_alternate_metadata_key key ≡ some alt
        → lookup_value alt ms' ≡ after_put false value (lookup_value alt ms))
    × ((k : List ℕ)
        → same_text k key ≡ false
        → get_alternate_metadata_key key ≢ some k
        → lookup_value k ms' ≡ lookup_value k ms)

put_twice :
    (key alt value : List ℕ) (s s' : Storage) (ms : List MuxMetadata)
    → get_alternate_metadata_key key ≡ some alt
    → same_text alt key ≡ false
    → same_text key alt ≡ false
    → Stored key value ms (put false alt value s' (put true key value s ms).0).0
put_twice key alt value s s' ms known apart apart' = (
  rw (lookup-put, apart', lookup-put, same_text_refl) refl,
  λ a p. let same : a ≡ alt = cc in rw (same, lookup-put, same_text_refl, lookup-put, apart) refl,
  λ k p q.
      let other : same_text k alt ≡ false = ground (arith, same_text_iff k alt) in
      rw (lookup-put, other, lookup-put, p) refl,
)

-- With memory to be had, and a key that has a place to be stored, adding metadata of the user
-- succeeds. The key then has the value; its alternate key, if it has one, has it too unless it was
-- set before; and what stands under any other key is as before.
pub add_metadata-Stored :
    (room : ℕ → Bool) (key value : List ℕ) (ms : List MuxMetadata) (s : Storage)
    → ((n : ℕ) → room n ≡ true)
    → storage_of key ≡ ok s
    → ((add_metadata room key value ms).0 ≡ ok tt)
      × Stored key value ms (add_metadata room key value ms).1
unfolding add_metadata after_first add_alternate after_alternate
add_metadata-Stored room key value ms s h e =
    let first = add_one_ok true key value ms s e in
    elim (Option-cases (get_alternate_metadata_key key)) [
      | inl none_known ↦
          rw (h 0, first, none_known)
            (
              refl,
              (
                rw (lookup-put, same_text_refl) refl,
                λ alt p. absurd (cc),
                λ k p q. rw (lookup-put, p) refl,
              ),
            )
      | inr (alt, known) ↦
          let good = alternate_good key alt known in
          let (s', e') = is_stored-ok alt good.1 in
          let second = add_one_ok false alt value (put true key value s ms).0 s' e' in
          let apart' : same_text key alt ≡ false =
            ground (arith, same_text_iff key alt, same_text_iff alt key) in
          let added : (add_metadata room key value ms).0 ≡ ok tt =
            rw (h 0, first, known, h 1, second) refl in
          let left : (add_metadata room key value ms).1
              ≡ (put false alt value s' (put true key value s ms).0).0 =
            rw (h 0, first, known, h 1, second) refl in
          (added, rw left (put_twice key alt value s s' ms known good.0 apart'))
    ]
