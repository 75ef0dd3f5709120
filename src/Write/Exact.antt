-- ===== src/Write/Exact.antt =====
-- src/mp4_box_writer.c: the bytes that a run of writes leaves, and when it has the room.
use libmp.Write.{write_each, write_words, write_bytes, write_32, fix_size}
use libmp.Prelude.{
  ℕ, List, ◌>>=◌, ◌<◌, ◌≡◌, length, ◌+◌, ◌++◌, ◌*◌, ◌≤◌, err, ok, ◌%◌, ◌∷◌, ap, enospc, ◌^◌, [],
  sym, refl, arith, ◌∙◌, length-append, guard-leb, Res, >>=-assoc, bind-ok,
}
use libmp.Bytes.{words, be_32, length-be_32, length-words}
use libmp.Read.Each.{flat}
use mathlib.Core.Path.{fun_ext}
use native.Mathlib.Decide.{dec_le}
use mathlib.Core.List.{append-nil, append_assoc}
use libmp.Write.Tables.{write_table}

-- The words of a table's box
abbrev pub table_words {ℓ} : {A : Type ℓ} → ℕ → ℕ → ℕ → List ℕ → (A → List ℕ) → List A → List ℕ
table_words kind before width head enc es =
    ((before + width * length es % 2 ^ 32) ∷ kind ∷ head) ++ (length es ∷ flat enc es)

write_32-fits :
    (max_bytes w : ℕ) (out : List ℕ)
    → length out + 4 ≤ max_bytes
    → write_32 max_bytes w out ≡ ok (out ++ be_32 w)
unfolding write_bytes
write_32-fits max_bytes w out h =
    guard-leb (length out + length (be_32 w)) max_bytes enospc _ (omega (arith, length-be_32 w))

write_32-full :
    (max_bytes w : ℕ) (out : List ℕ)
    → max_bytes < length out + 4
    → write_32 max_bytes w out ≡ err enospc
unfolding write_bytes
write_32-full max_bytes w out h = let four = length-be_32 w in ground arith

-- Words that fit are all written, in order.
pub write_words-fits :
    (max_bytes : ℕ) (ws out : List ℕ)
    → length out + 4 * length ws ≤ max_bytes
    → write_words max_bytes ws out ≡ ok (out ++ words ws)
unfolding write_words words
write_words-fits max_bytes [] out h = ap ok (sym (append-nil out))
write_words-fits max_bytes (w ∷ ws) out h =
    bind-ok _ (write_32-fits max_bytes w out (omega arith))
    ∙ write_words-fits max_bytes ws (out ++ be_32 w)
        (omega (arith, length-append out (be_32 w), length-be_32 w))
    ∙ ap ok (append_assoc out (be_32 w) (words ws))

-- Words that do not fit end in the error.
pub write_words-full :
    (max_bytes : ℕ) (ws out : List ℕ)
    → length out ≤ max_bytes
    → max_bytes < length out + 4 * length ws
    → write_words max_bytes ws out ≡ err enospc
unfolding write_words
write_words-full max_bytes [] out h full = absurd (omega arith)
write_words-full max_bytes (w ∷ ws) out h full = elim (dec_le (length out + 4) max_bytes) [
  | yes fits ↦
      bind-ok _ (write_32-fits max_bytes w out fits)
      ∙ write_words-full max_bytes ws (out ++ be_32 w)
          (omega (arith, length-append out (be_32 w), length-be_32 w))
          (omega (arith, length-append out (be_32 w), length-be_32 w))
  | no over ↦ ap (λ r. r >>= write_words max_bytes ws) (write_32-full max_bytes w out (omega arith))
]

write_words-append :
    (max_bytes : ℕ) (vs ws out : List ℕ)
    → (write_words max_bytes vs out >>= write_words max_bytes ws)
      ≡ write_words max_bytes (vs ++ ws) out
unfolding write_words
write_words-append max_bytes [] ws out = refl
write_words-append max_bytes (v ∷ vs) ws out =
    >>=-assoc (write_32 max_bytes v out) (write_words max_bytes vs) (write_words max_bytes ws)
    ∙ ap (λ f. write_32 max_bytes v out >>= f) (fun_ext (write_words-append max_bytes vs ws))

write_each-words {ℓ} :
    {A : Type ℓ} (max_bytes : ℕ) (enc : A → List ℕ) (es : List A) (out : List ℕ)
    → write_each max_bytes enc es out ≡ write_words max_bytes (flat enc es) out
unfolding write_each write_words
write_each-words max_bytes enc [] out = refl
write_each-words max_bytes enc (e ∷ es) out =
    ap (λ f. write_words max_bytes (enc e) out >>= f) (fun_ext (write_each-words max_bytes enc es))
    ∙ write_words-append max_bytes (enc e) (flat enc es) out

pub fix_size-same : (size : ℕ) (out : List ℕ) → size ≡ length out → fix_size size out ≡ out
unfolding fix_size
fix_size-same size out e = ground arith

one_run {ℓ} :
    {A : Type ℓ} (max_bytes n : ℕ) (front : List ℕ) (enc : A → List ℕ) (es : List A)
    (next : List ℕ → Res (List ℕ))
    → (write_words max_bytes front [] >>= λ out.
        write_32 max_bytes n out >>= λ out. write_each max_bytes enc es out >>= next)
      ≡ (write_words max_bytes (front ++ (n ∷ flat enc es)) [] >>= next)
unfolding write_words
one_run max_bytes n front enc es next =
    ap (λ f. write_words max_bytes front [] >>= f)
      (fun_ext λ out.
        ap (λ f. write_32 max_bytes n out >>= λ out. f out >>= next)
          (fun_ext (write_each-words max_bytes enc es))
        ∙ sym (>>=-assoc (write_32 max_bytes n out) (write_words max_bytes (flat enc es)) next))
    ∙ sym
        (>>=-assoc (write_words max_bytes front []) (write_words max_bytes (n ∷ flat enc es)) next)
    ∙ ap (λ r. r >>= next) (write_words-append max_bytes front (n ∷ flat enc es) [])

-- A table is written as a run of words.
pub write_table-words {ℓ} :
    {A : Type ℓ} (max_bytes kind before width : ℕ) (head : List ℕ) (enc : A → List ℕ) (e : A)
    (es : List A)
    → write_table max_bytes kind before width head enc (e ∷ es) ≡ (
        write_words max_bytes (table_words kind before width head enc (e ∷ es)) [] >>= λ out.
        ok (fix_size (before + width * length (e ∷ es) % 2 ^ 32) out))
unfolding write_table write_words
write_table-words max_bytes kind before width head enc e es =
    one_run max_bytes (length (e ∷ es)) ((before + width * length (e ∷ es) % 2 ^ 32) ∷ kind ∷ head)
      enc (e ∷ es) (λ out. ok (fix_size (before + width * length (e ∷ es) % 2 ^ 32) out))

-- With room for it, a table is written whole, and its first word is its size.
pub write_table-fits {ℓ} :
    {A : Type ℓ} (max_bytes kind before width : ℕ) (head : List ℕ) (enc : A → List ℕ) (e : A)
    (es : List A)
    → 4 * length (flat enc (e ∷ es)) ≡ width * length (e ∷ es)
    → before ≡ 12 + 4 * length head
    → width * length (e ∷ es) < 2 ^ 32
    → before + width * length (e ∷ es) ≤ max_bytes
    → write_table max_bytes kind before width head enc (e ∷ es)
      ≡ ok (words (table_words kind before width head enc (e ∷ es)))
write_table-fits max_bytes kind before width head enc e es wide b small fits =
    let k : 4 * length (table_words kind before width head enc (e ∷ es))
        ≡ before + width * length (e ∷ es) =
      omega (arith, wide, b, length-append head (length (e ∷ es) ∷ flat enc (e ∷ es))) in
    write_table-words max_bytes kind before width head enc e es
    ∙ bind-ok _ (
        write_words-fits max_bytes (table_words kind before width head enc (e ∷ es)) []
          (omega (arith, k, fits)))
    ∙ ap ok (
        fix_size-same _ _
          (omega (arith, k, small, length-words (table_words kind before width head enc (e ∷ es)))))

-- Without room for it, a table ends in the error.
pub write_table-full {ℓ} :
    {A : Type ℓ} (max_bytes kind before width : ℕ) (head : List ℕ) (enc : A → List ℕ) (e : A)
    (es : List A)
    → 4 * length (flat enc (e ∷ es)) ≡ width * length (e ∷ es)
    → before ≡ 12 + 4 * length head
    → max_bytes < before + width * length (e ∷ es)
    → write_table max_bytes kind before width head enc (e ∷ es) ≡ err enospc
write_table-full max_bytes kind before width head enc e es wide b full =
    let k : 4 * length (table_words kind before width head enc (e ∷ es))
        ≡ before + width * length (e ∷ es) =
      omega (arith, wide, b, length-append head (length (e ∷ es) ∷ flat enc (e ∷ es))) in
    write_table-words max_bytes kind before width head enc e es
    ∙ ap (λ r. r >>= λ out. ok (fix_size (before + width * length (e ∷ es) % 2 ^ 32) out))
        (write_words-full max_bytes (table_words kind before width head enc (e ∷ es)) []
          (omega arith) (omega (arith, k, full)))
