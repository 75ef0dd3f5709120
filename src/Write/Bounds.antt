-- ===== src/Write/Bounds.antt =====
-- src/mp4_box_writer.c: no writer goes past the room that it is given.
use libmp.Write.{fix_size, write_words, write_bytes, write_run, write_32, write_box}
use libmp.Prelude.{
  Res, List, ℕ, ◌≤◌, ◌≡◌, length, ◌>>=◌, ok_eq, ok, ◌+◌, ◌*◌, arith, >>=-eq-ok, ◌∷◌, guard, leb,
  enospc, length-append, ◌==◌, Bool, [], ◌++◌, if◌then◌else◌, true, drop, false, length-drop, refl,
  ◌%◌, ◌^◌, sym, ◌∙◌,
}
use libmp.Bytes.{be_32, length-be_32}
use libmp.Write.Tables.{write_table}
use libmp.Write.Exact.{table_words, write_table-words}
use libmp.Write.Run.{join}

-- The bytes that a call leaves are at most so many, and at least so many.
abbrev pub Within : Res (List ℕ) → ℕ → ℕ → Type 0
Within written least most =
    (bytes : List ℕ) → written ≡ ok bytes → (least ≤ length bytes) × (length bytes ≤ most)

write_bytes-Within :
    (max_bytes : ℕ) (bytes out : List ℕ)
    → Within (write_bytes max_bytes bytes out) (length out + length bytes) max_bytes
unfolding write_bytes
write_bytes-Within max_bytes bytes out all e =
    let (_, test, p) = >>=-eq-ok (guard (leb (length out + length bytes) max_bytes) enospc) _ e in
    let q = ok_eq p in rw (← q) (ground (arith, test, length-append out bytes))

pub >>=-Within :
    (call : Res (List ℕ)) (next : List ℕ → Res (List ℕ)) (least middle most : ℕ)
    → Within call middle most
    → ((out : List ℕ) → middle ≤ length out → length out ≤ most → Within (next out) least most)
    → Within (call >>= next) least most
>>=-Within call next least middle most first second bytes e =
    let (out, p, q) = >>=-eq-ok call next e in
    let (low, high) = first out p in second out low high bytes q

pub write_words-Within :
    (max_bytes : ℕ) (ws out : List ℕ)
    → length out ≤ max_bytes
    → Within (write_words max_bytes ws out) (length out + 4 * length ws) max_bytes
unfolding write_words
write_words-Within max_bytes [] out h bytes e = let q = ok_eq e in rw (← q) (omega arith, h)
write_words-Within max_bytes (w ∷ ws) out h bytes eq =
    >>=-Within (write_32 max_bytes w out) (write_words max_bytes ws) _ (length out + 4) max_bytes
      (λ bytes e.
        let (low, high) = write_bytes-Within max_bytes (be_32 w) out bytes e in
        (omega (arith, low, length-be_32 w), high))
      (λ next low high bytes e.
        let (least, most) = write_words-Within max_bytes ws next high bytes e in
        (omega (arith, least, low), most))
      bytes eq

write_run-Within :
    (max_bytes : ℕ) (run : List (List ℕ)) (out : List ℕ)
    → length out ≤ max_bytes
    → Within (write_run max_bytes run out) (length out + length (join run)) max_bytes
unfolding write_run
write_run-Within max_bytes [] out h bytes e = let q = ok_eq e in rw (← q) (omega arith, h)
write_run-Within max_bytes (values ∷ run) out h bytes eq =
    >>=-Within (write_bytes max_bytes values out) (write_run max_bytes run) _
      (length out + length values) max_bytes (write_bytes-Within max_bytes values out)
      (λ next low high bytes e.
        let (least, most) = write_run-Within max_bytes run next high bytes e in
        (omega (arith, least, low, length-append values (join run)), most))
      bytes eq

if-length :
    (b : Bool) (xs ys : List ℕ) → length ys ≡ length xs → length (if b then xs else ys) ≡ length xs
if-length true xs ys e = refl
if-length false xs ys e = e

-- Putting the size right keeps the length.
fix_size-length :
    (size : ℕ) (out : List ℕ) → 4 ≤ length out → length (fix_size size out) ≡ length out
unfolding fix_size
fix_size-length size out h = if-length (size == length out) out (be_32 (length out) ++ drop 4 out) (
    omega (
      arith,
      h,
      length-append (be_32 (length out)) (drop 4 out),
      length-be_32 (length out),
      length-drop 4 out,
    ))

pub fix_size-Within :
    (size least most : ℕ) (out : List ℕ)
    → 4 ≤ length out
    → least ≤ length out
    → length out ≤ most
    → Within (ok (fix_size size out)) least most
fix_size-Within size least most out four low high bytes e =
    let q = ok_eq e in
    let same = fix_size-length size out four in
    rw (← q) (omega (arith, same, low), omega (arith, same, high))

pub write_table-Within {ℓ} :
    {A : Type ℓ} (max_bytes kind before width : ℕ) (head : List ℕ) (enc : A → List ℕ) (es : List A)
    → Within (write_table max_bytes kind before width head enc es) 0 max_bytes
unfolding write_table
write_table-Within max_bytes kind before width head enc [] bytes eq =
    let q = ok_eq eq in rw (← q) (omega arith, omega arith)
write_table-Within max_bytes kind before width head enc (e ∷ es) bytes eq =
    let size = before + width * length (e ∷ es) % 2 ^ 32 in
    let words_of = table_words kind before width head enc (e ∷ es) in
    >>=-Within (write_words max_bytes words_of []) (λ out. ok (fix_size size out)) 0 4 max_bytes
      (λ bytes eq.
        let (low, high) = write_words-Within max_bytes words_of [] (omega arith) bytes eq in
        (omega (arith, low), high))
      (λ out low high. fix_size-Within size 0 max_bytes out low (omega arith) high) bytes
      (sym (write_table-words max_bytes kind before width head enc e es) ∙ eq)

write_box-Within :
    (max_bytes size kind : ℕ) (run : List (List ℕ))
    → Within (write_box max_bytes size kind run) 0 max_bytes
unfolding write_box
write_box-Within max_bytes size kind run =
    >>=-Within (write_run max_bytes (be_32 size ∷ be_32 kind ∷ run) []) _ 0 4 max_bytes
      (λ bytes eq.
        let (low, high) =
          write_run-Within max_bytes (be_32 size ∷ be_32 kind ∷ run) [] (omega arith) bytes eq in
        (
          omega
              (arith, low, length-append (be_32 size) (join (be_32 kind ∷ run)), length-be_32 size),
          high,
        ))
      λ out low high. fix_size-Within size 0 max_bytes out low (omega arith) high
