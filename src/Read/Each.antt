-- ===== src/Read/Each.antt =====
-- src/mp4_box_reader.c: the words, the entries and the tables that the readers find in a file.
use libmp.Read.{advance, read_each, Cursor, read_32, skip_rest, read_be}
use libmp.Prelude.{
  List, ℕ, Res, ◌∷◌, ◌≡◌, ok, ◌+◌, true, ◌++◌, All, length, [], arith, ◌*◌, ap, ◌∙◌, refl, ◌≤◌,
  length-append, ◌<◌, ◌^◌, einval, sym, eproto, ◌-◌, guard-leb, bind-ok,
}
use libmp.Bytes.{words, length-words, words-append, length-be_32, be_32, from_be-be_32}
use libmp.Read.Holds.{Holds, Holds-right, read_be-Holds}
use mathlib.Core.Path.{subst}
use libmp.Read.Tables.{read_table, read_count, read_entries, max_entry_count}

abbrev pub flat {ℓ} : {A : Type ℓ} → (A → List ℕ) → List A → List ℕ
flat enc [] = []
flat enc (a ∷ rest) = enc a ++ flat enc rest

pub advance-advance : (c : Cursor) (m n : ℕ) → advance (advance c m) n ≡ advance c (m + n)
unfolding advance
advance-advance c m n =
    let e : c.offset + m + n ≡ c.offset + (m + n) = omega arith in
    let f : c.count + m + n ≡ c.count + (m + n) = omega arith in rw (e, f) refl

-- A word that the file holds is read, and what follows it is ahead.
pub read_32-word :
    (pread : ℕ → ℕ → Res (List ℕ)) (c : Cursor) (w : ℕ) (ws : List ℕ)
    → w < 2 ^ 32
    → Holds pread c.offset (words (w ∷ ws))
    → (read_32 pread c ≡ ok (w, advance c 4)) × Holds pread (c.offset + 4) (words ws)
unfolding words
read_32-word pread c w ws small h =
    let four = length-be_32 w in
    (
      ap (λ n. read_be n pread c) (sym four)
          ∙ read_be-Holds pread c (be_32 w) (words ws) h
          ∙ rw (four, from_be-be_32 w small) refl,
      subst (λ n. Holds pread (c.offset + n) (words ws)) four
          (Holds-right pread c.offset (be_32 w) (words ws) h),
    )

pub Holds-words :
    (pread : ℕ → ℕ → Res (List ℕ)) (offset : ℕ) (vs ws : List ℕ)
    → Holds pread offset (words (vs ++ ws))
    → Holds pread (offset + 4 * length vs) (words ws)
Holds-words pread offset vs ws h =
    subst (λ n. Holds pread (offset + n) (words ws)) (length-words vs)
      (Holds-right pread offset (words vs) (words ws)
        (subst (Holds pread offset) (words-append vs ws) h))

-- The reader of one entry finds its words.
abbrev pub Reads {ℓ} :
    {A : Type ℓ} → (ℕ → ℕ → Res (List ℕ)) → (Cursor → Res (A × Cursor)) → (A → List ℕ) → A → Type ℓ
Reads pread one enc a =
    (c : Cursor) (ws : List ℕ)
    → Holds pread c.offset (words (enc a ++ ws))
    → one c ≡ ok (a, advance c (4 * length (enc a)))

pub read_each-All {ℓ} :
    {A : Type ℓ} (pread : ℕ → ℕ → Res (List ℕ)) (one : Cursor → Res (A × Cursor)) (enc : A → List ℕ)
    (es : List A) (c : Cursor)
    → All (Reads pread one enc) es
    → Holds pread c.offset (words (flat enc es))
    → read_each one (length es) c ≡ ok (es, advance c (4 * length (flat enc es)))
unfolding read_each advance
read_each-All pread one enc [] c r h =
    let e : c.offset + 4 * 0 ≡ c.offset = omega arith in
    let f : c.count + 4 * 0 ≡ c.count = omega arith in rw (e, f) refl
read_each-All pread one enc (a ∷ rest) c r h =
    let behind = Holds-words pread c.offset (enc a) (flat enc rest) h in
    bind-ok _ (r.0 c (flat enc rest) h)
    ∙ bind-ok _ (read_each-All pread one enc rest (advance c (4 * length (enc a))) r.1 behind)
    ∙ ap (λ d. ok (a ∷ rest, d))
        (advance-advance c (4 * length (enc a)) (4 * length (flat enc rest))
          ∙ ap (advance c) (omega (arith, length-append (enc a) (flat enc rest))))

pub read_count-word :
    (pread : ℕ → ℕ → Res (List ℕ)) (c d : Cursor) (count : ℕ)
    → read_32 pread c ≡ ok (count, d)
    → count ≤ max_entry_count
    → read_count pread true c ≡ ok (count, d)
unfolding read_count
read_count-word pread c d count e few = bind-ok _ e ∙ guard-leb count max_entry_count eproto _ few

pub read_entries-All {ℓ} :
    {A : Type ℓ} (pread : ℕ → ℕ → Res (List ℕ)) (one : Cursor → Res (A × Cursor)) (enc : A → List ℕ)
    (max_bytes before width : ℕ) (es : List A) (c : Cursor)
    → All (Reads pread one enc) es
    → 4 * length (flat enc es) ≡ length es * width
    → c.count ≡ before
    → before + length es * width ≤ max_bytes
    → Holds pread c.offset (words (flat enc es))
    → read_entries max_bytes before width one (length es) c
      ≡ ok (es, advance c (max_bytes - before))
unfolding read_entries skip_rest advance
read_entries-All pread one enc max_bytes before width es c r wide start fits h =
    guard-leb (before + length es * width) max_bytes einval _ fits
    ∙ bind-ok _ (read_each-All pread one enc es c r h)
    ∙ ap (λ d. ok (es, d))
        (advance-advance c (4 * length (flat enc es)) _
          ∙ ap (advance c) (omega (arith, wide, start, fits)))

-- A table whose words are in the file is read, and the whole box with it.
pub read_table-All {ℓ} :
    {A : Type ℓ} (pread : ℕ → ℕ → Res (List ℕ)) (one : Cursor → Res (A × Cursor)) (enc : A → List ℕ)
    (max_bytes width flags : ℕ) (es : List A) (c : Cursor)
    → All (Reads pread one enc) es
    → flags < 2 ^ 32
    → length es ≤ max_entry_count
    → 4 * length (flat enc es) ≡ length es * width
    → c.count ≡ 0
    → 8 + length es * width ≤ max_bytes
    → Holds pread c.offset (words (flags ∷ length es ∷ flat enc es))
    → read_table pread true max_bytes width one c ≡ ok (es, advance c max_bytes)
unfolding read_table advance
read_table-All pread one enc max_bytes width flags es c r f few wide start fits h =
    let (head, h1) = read_32-word pread c flags (length es ∷ flat enc es) f h in
    let (count, h2) = read_32-word pread (advance c 4) (length es) (flat enc es) (omega arith) h1 in
    guard-leb 8 max_bytes einval _ (omega arith)
    ∙ bind-ok _ head
    ∙ bind-ok _
        (read_count-word pread (advance c 4) (advance (advance c 4) 4) (length es) count few)
    ∙ read_entries-All pread one enc max_bytes 8 width es (advance (advance c 4) 4) r wide
        (omega (arith, start)) fits h2
    ∙ ap (λ d. ok (es, d))
        (advance-advance (advance c 4) 4 _ ∙ advance-advance c 4 _ ∙ ap (advance c) (omega arith))
