-- ===== src/Mux/Metadata.antt =====
-- src/mp4_mux.c, `mp4_mux_add_metadata_internal`: the metadata of the file or of a track, by key.
pub mod Lookup
use Prim.Native.String.{String}
use Prim.Native.Char.{code}
use libmp.Prelude.{
  ℕ, List, Bool, Res, [], Option, ◌∷◌, if◌then◌else◌, true, none, ◌>>=◌, some, take, fault, ok,
  ◌==◌, length, ◌||◌, false, ◌&&◌, err, enomem, ltb, einval, enoent,
}
use libmp.Mux.{Mux, Storage, MuxMetadata, track_find_by_handle, with_track}

-- The bytes of an ASCII text.
abbrev pub codes : String → List ℕ
codes String.[] = []
codes (String.◌∷◌ c s) = code c ∷ codes s

-- `strcmp(a, b) == 0`
unfoldable pub same_text : List ℕ → List ℕ → Bool
same_text [] [] = true
same_text (x ∷ xs) (y ∷ ys) = x == y && same_text xs ys
same_text _ _ = false

-- The keys of include/libmp4.h; the UDTA keys begin with the byte 0xa9.
abbrev pub udta_key_location : List ℕ
udta_key_location = 0xa9 ∷ codes "xyz"

abbrev pub alternate_keys : List (List ℕ × List ℕ)
alternate_keys =
    (codes "com.apple.quicktime.artist", 0xa9 ∷ codes "ART")
    ∷ (codes "com.apple.quicktime.title", 0xa9 ∷ codes "nam")
    ∷ (codes "com.apple.quicktime.comment", 0xa9 ∷ codes "cmt")
    ∷ (codes "com.apple.quicktime.copyright", 0xa9 ∷ codes "cpy")
    ∷ (codes "com.apple.quicktime.creationdate", 0xa9 ∷ codes "day")
    ∷ (codes "com.apple.quicktime.location.ISO6709", udta_key_location)
    ∷ (codes "com.apple.quicktime.make", 0xa9 ∷ codes "mak")
    ∷ (codes "com.apple.quicktime.model", 0xa9 ∷ codes "mod")
    ∷ (codes "com.apple.quicktime.software", 0xa9 ∷ codes "swr")
    ∷ []

unfoldable pub find_alternate : List (List ℕ × List ℕ) → List ℕ → Option (List ℕ)
find_alternate [] key = none
find_alternate ((base, alt) ∷ keys) key =
    if same_text key base
    then some alt
    else if same_text key alt
    then some base
    else find_alternate keys key

-- `mp4_mux_get_alternate_metadata_key`
unfoldable pub get_alternate_metadata_key : List ℕ → Option (List ℕ)
unfolding find_alternate
get_alternate_metadata_key key = find_alternate alternate_keys key

-- Where a key is stored; any other key is refused.
unfoldable pub storage_of : List ℕ → Res Storage
storage_of key =
    if same_text (take 4 key) (codes "com.")
    then ok Storage.meta
    else if length key == 4
    then (if same_text key udta_key_location then ok Storage.udta_root else ok Storage.udta)
    else err einval

-- How the search for the key ended.
pub data Hit : Type 0 where
  kept overridden added : Hit

-- The walk over the list: the first entry with the key is kept or overridden, and a key that is not
-- there is added at the end.
unfoldable pub put : Bool → List ℕ → List ℕ → Storage → List MuxMetadata → List MuxMetadata × Hit
put user key value storage [] = (record { key = key; value = value; storage = storage } ∷ [], added)
put user key value storage (m ∷ ms) =
    let rest = put user key value storage ms in
    if same_text key m.key
    then (if user then (record m { value = value } ∷ ms, overridden) else (m ∷ ms, kept))
    else (m ∷ rest.0, rest.1)

-- `mp4_mux_add_metadata_internal` for one key; `room` tells whether `calloc` gives an entry.
unfoldable pub add_one :
    Bool → Bool → List ℕ → List ℕ → List MuxMetadata → Res (List MuxMetadata × Hit)
add_one room user key value ms = storage_of key >>= λ storage.
    let r = put user key value storage ms in
    elim r.1 [ added ↦ if room then ok r else err enomem | _ ↦ ok r ]

-- Whether an entry was overridden.
abbrev pub is_overridden : Hit → Bool
is_overridden overridden = true
is_overridden kept = false
is_overridden added = false

-- The end of the function: the second call, for the alternate key, may fail after the first has
-- changed the list.
unfoldable pub after_alternate :
    List MuxMetadata × Hit → Res (List MuxMetadata × Hit) → Res (Unit {0}) × List MuxMetadata × Bool
after_alternate r fault = (fault, r.0, is_overridden r.1)
after_alternate r (err e) = (err e, r.0, is_overridden r.1)
after_alternate r (ok r') = (ok tt, r'.0, is_overridden r.1)

unfoldable pub add_alternate :
    Bool
    → Option (List ℕ)
    → List ℕ
    → List MuxMetadata × Hit
    → Res (Unit {0}) × List MuxMetadata × Bool
unfolding after_alternate
add_alternate room none value r = (ok tt, r.0, is_overridden r.1)
add_alternate room (some alt) value r = after_alternate r (add_one room false alt value r.0)

unfoldable pub after_first :
    Bool
    → List ℕ
    → List ℕ
    → List MuxMetadata
    → Res (List MuxMetadata × Hit)
    → Res (Unit {0}) × List MuxMetadata × Bool
unfolding add_alternate
after_first room key value ms fault = (fault, ms, false)
after_first room key value ms (err e) = (err e, ms, false)
after_first room key value ms (ok r) = add_alternate room (get_alternate_metadata_key key) value r

-- The answer of the function, the list after it, and whether an entry was overridden.
unfoldable pub add_metadata :
    (ℕ → Bool) → List ℕ → List ℕ → List MuxMetadata → Res (Unit {0}) × List MuxMetadata × Bool
unfolding after_first
add_metadata room key value ms =
    after_first (room 1) key value ms (add_one (room 0) true key value ms)

-- `mp4_mux_add_file_metadata`
unfoldable pub add_file_metadata : (ℕ → Bool) → Mux → List ℕ → List ℕ → Res (Unit {0}) × Mux
add_file_metadata room m key value =
    let r = add_metadata room key value m.metadatas in (r.0, record m { metadatas = r.1 })

-- `mp4_mux_add_track_metadata`; the storage of the key is looked at before the track.
unfoldable pub add_track_metadata : (ℕ → Bool) → Mux → ℕ → List ℕ → List ℕ → Res (Unit {0}) × Mux
add_track_metadata room m handle key value =
    if handle == 0 || ltb m.track_count handle then (err einval, m) else elim (storage_of key) [
      | fault ↦ (fault, m)
      | err e ↦ (err e, m)
      | ok _ ↦ elim (track_find_by_handle m handle) [
        | none ↦ (err enoent, m)
        | some t ↦
            let r = add_metadata room key value t.metadatas in
            let t' = record t {
              metadatas = r.1;
              meta_write_count = if r.2 then 0 else t.meta_write_count;
            } in
            (r.0, with_track m handle t')
      ]
    ]
