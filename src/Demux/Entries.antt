-- ===== src/Demux/Entries.antt =====
-- The metadata list of a file against its description: the entries that have a key and a value.
use libmp.Prelude.{
  List, length, ◌∷◌, ℕ, ◌+◌, if◌then◌else◌, ◌≡◌, Bool-cases, ◌++◌, ◌≤◌, inl, [], ap, suc, leb, inr,
  refl, false, arith, ltb, true,
}
use libmp.Demux.Info.{
  copy_entries, count_entries, final_entries, final_count, Entry, FileMetadata, is_valid_entry,
}

abbrev pub valid_entries : List Entry → List Entry
valid_entries [] = []
valid_entries (e ∷ es) = if is_valid_entry e then e ∷ valid_entries es else valid_entries es

pub length-valid_entries : (es : List Entry) → length (valid_entries es) ≡ count_entries es
unfolding count_entries
length-valid_entries [] = refl
length-valid_entries (e ∷ es) = elim (Bool-cases (is_valid_entry e)) [
  | inl p ↦ rw p (ap suc (length-valid_entries es))
  | inr p ↦ rw p (length-valid_entries es)
]

valid_none : (es : List Entry) → count_entries es ≡ 0 → valid_entries es ≡ []
unfolding count_entries
valid_none [] h = refl
valid_none (e ∷ es) h = ground (arith, valid_none es)

-- A loop copies every valid entry when the count leaves room for them.
copy-valid :
    (es : List Entry) (k count : ℕ)
    → k + count_entries es ≤ count
    → copy_entries es k count ≡ valid_entries es
unfolding copy_entries count_entries
copy-valid [] k count h = refl
copy-valid (e ∷ es) k count h = elim (Bool-cases (is_valid_entry e)) [
  | inl p ↦
      let h' : k + suc (count_entries es) ≤ count = rw p at h in
      let room : leb count k ≡ false = ground arith in
      rw (p, room, copy-valid es (k + 1) count (omega arith)) refl
  | inr p ↦
      let h' : k + count_entries es ≤ count = rw p at h in
      elim (Bool-cases (leb count k)) [
        | inr room ↦ rw (p, room, copy-valid es k count h') refl
        | inl full ↦ rw (p, full, valid_none es (ground arith)) refl
      ]
]

-- The list that the demuxer builds holds the entries with a key and a value that are not too long:
-- those of the meta box, then those of the udta box, then the location, each in its order.
pub final_entries-valid :
    (f : FileMetadata)
    → final_entries f
      ≡ (valid_entries f.meta ++ valid_entries f.udta) ++ valid_entries (f.location ∷ [])
unfolding final_entries final_count
final_entries-valid f =
    let a = copy-valid f.meta 0 (final_count f) (omega arith) in
    let n : length (valid_entries f.meta) ≡ count_entries f.meta = length-valid_entries f.meta in
    let b = copy-valid f.udta (length (valid_entries f.meta)) (final_count f) (omega (arith, n)) in
    let m : length (valid_entries f.udta) ≡ count_entries f.udta = length-valid_entries f.udta in
    elim (Bool-cases (is_valid_entry f.location)) [
      | inr p ↦ rw (a, b, p) refl
      | inl p ↦
          let room : ltb (length (valid_entries f.meta) + length (valid_entries f.udta))
                (count_entries f.meta + count_entries f.udta + 1)
              ≡ true =
            ground (arith, n, m) in
          rw (a, b, p, room) refl
    ]
