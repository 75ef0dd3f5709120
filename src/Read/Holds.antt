-- ===== src/Read/Holds.antt =====
-- src/mp4_box_reader.c: what the reads give on a file that has known bytes at an offset.
use libmp.Read.{read_be, Cursor, advance}
use libmp.Prelude.{
  ℕ, List, ◌++◌, take, Res, drop, ok, length, ◌+◌, ap, ◌≡◌, ◌∙◌, arith, ◌∷◌, sym, [], suc,
  length-append, refl,
}
use libmp.Bytes.{from_be}
use mathlib.Core.List.{append_assoc}

-- Every part of the bytes is what a read there gives.
pub Holds : (ℕ → ℕ → Res (List ℕ)) → ℕ → List ℕ → Type 0
Holds pread offset bytes =
    (xs ys zs : List ℕ) → bytes ≡ xs ++ (ys ++ zs) → pread (offset + length xs) (length ys) ≡ ok ys

-- A file whose bytes are a list
unfoldable pub file_pread : List ℕ → ℕ → ℕ → Res (List ℕ)
file_pread file offset n = ok (take n (drop offset file))

drop-append_lem : (xs ys : List ℕ) (n : ℕ) → drop (length xs + n) (xs ++ ys) ≡ drop n ys
drop-append_lem [] ys n = let e : 0 + n ≡ n = omega arith in rw e refl
drop-append_lem (x ∷ xs) ys n =
    let e : suc (length xs) + n ≡ suc (length xs + n) = omega arith in
    rw e (drop-append_lem xs ys n)

take-append_lem : (xs ys : List ℕ) → take (length xs) (xs ++ ys) ≡ xs
take-append_lem [] ys = refl
take-append_lem (x ∷ xs) ys = ap (λ zs. x ∷ zs) (take-append_lem xs ys)

take-drop_lem : (xs ys zs : List ℕ) → take (length ys) (drop (length xs) (xs ++ (ys ++ zs))) ≡ ys
take-drop_lem xs ys zs =
    let e : length xs ≡ length xs + 0 = omega arith in
    ap (λ n. take (length ys) (drop n (xs ++ (ys ++ zs)))) e
    ∙ ap (take (length ys)) (drop-append_lem xs (ys ++ zs) 0)
    ∙ take-append_lem ys zs

pub file_pread-Holds :
    (front bytes back : List ℕ) → Holds (file_pread (front ++ (bytes ++ back))) (length front) bytes
unfolding Holds file_pread
file_pread-Holds front bytes back xs ys zs e =
    ap (λ l. ok (take (length ys) l)) (drop-append_lem front (bytes ++ back) (length xs))
    ∙ ap (λ l. ok (take (length ys) (drop (length xs) l)))
        (ap (λ l. l ++ back) e
          ∙ append_assoc xs (ys ++ zs) back
          ∙ ap (λ l. xs ++ l) (append_assoc ys zs back))
    ∙ ap ok (take-drop_lem xs ys (zs ++ back))

pub Holds-left :
    (pread : ℕ → ℕ → Res (List ℕ)) (offset : ℕ) (front back : List ℕ)
    → Holds pread offset (front ++ back)
    → Holds pread offset front
unfolding Holds
Holds-left pread offset front back h xs ys zs e = h xs ys (zs ++ back) (
    ap (λ l. l ++ back) e
    ∙ append_assoc xs (ys ++ zs) back
    ∙ ap (λ l. xs ++ l) (append_assoc ys zs back))

pub Holds-right :
    (pread : ℕ → ℕ → Res (List ℕ)) (offset : ℕ) (front back : List ℕ)
    → Holds pread offset (front ++ back)
    → Holds pread (offset + length front) back
unfolding Holds
Holds-right pread offset front back h xs ys zs e =
    let p =
      h (front ++ xs) ys zs (ap (λ l. front ++ l) e ∙ sym (append_assoc front xs (ys ++ zs))) in
    let q : offset + length (front ++ xs) ≡ offset + length front + length xs =
      omega (arith, length-append front xs) in
    rw (← q) p

pub read_be-Holds :
    (pread : ℕ → ℕ → Res (List ℕ)) (c : Cursor) (bytes back : List ℕ)
    → Holds pread c.offset (bytes ++ back)
    → read_be (length bytes) pread c ≡ ok (from_be bytes, advance c (length bytes))
unfolding Holds read_be
read_be-Holds pread c bytes back h =
    let none_before : c.offset ≡ c.offset + 0 = omega arith in
    rw (none_before, h [] bytes back refl) (ground arith)
