-- ===== src/File/Limit.antt =====
-- src/mp4_track.c: the bounds of the chapter list, whose arrays have 100 entries.
use libmp.File.Chapters.{chapter_loop, chapters_max, chapter_size, chapter_at}
use libmp.Prelude.{
  ℕ, Res, List, Bool, length, ◌≤◌, ◌≡◌, ok, ok_eq, suc, >>=-eq-ok, Option-cases, inl, ◌+◌, inr,
  Bool-cases, leb, ◌++◌, ◌∷◌, [], arith, length-append, zero, ◌<◌,
}
use libmp.Track.{Track}

-- From at most 100 chapters on, whatever is read from the file, the loop over the chapter samples
-- that succeeds leaves at most 100 chapters: it keeps to the arrays of the file.
pub chapter_loop-small :
    (pread : ℕ → ℕ → Res (List ℕ)) (room : ℕ → Bool) (t : Track) (k i : ℕ)
    (done : List (ℕ × List ℕ)) (cs : List (ℕ × List ℕ))
    → length done ≤ chapters_max
    → chapter_loop pread room t k i done ≡ ok cs
    → length cs ≤ chapters_max
unfolding chapter_loop
chapter_loop-small pread room t zero i done cs h e = let same : done ≡ cs = ok_eq e in rw same at h
chapter_loop-small pread room t (suc k) i done cs h e =
    let (found, p, q) = >>=-eq-ok (chapter_size pread t i) _ e in
    elim (Option-cases found) [
      | inl none' ↦ chapter_loop-small pread room t k (i + 1) done cs h (rw none' at q)
      | inr ((offset, sz), some') ↦ elim (Bool-cases (leb chapters_max (length done))) [
        | inl full ↦ let same : done ≡ cs = ok_eq (rw (some', full) at q) in rw same at h
        | inr more ↦
            let (c, p', q') =
              >>=-eq-ok (chapter_at pread (room i) t i offset sz) _ (rw (some', more) at q) in
            let fits : length done < chapters_max = ground arith in
            chapter_loop-small pread room t k (i + 1) (done ++ (c ∷ [])) cs
              (omega (arith, length-append done (c ∷ []))) q'
      ]
    ]
