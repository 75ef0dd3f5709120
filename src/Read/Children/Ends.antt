-- ===== src/Read/Children/Ends.antt =====
-- src/mp4_box_reader.c: `mp4_box_children_read` comes to an end, whatever the file holds.
use libmp.Prelude.{
  Bool, Option, Res, if◌then◌else◌, ℕ, some, ◌≡◌, refl, ok, true, List, false, err, none, ◌≤◌,
  fault, ◌∷◌, ◌-◌, arith, ◌||◌, ◌>>◌, guard, enomem, drop, ◌+◌, ltb, >>=-eq-ok, ok_eq, length, ◌==◌,
  suc, leb, eio, einval, zero, not, Bool-cases, ◌<◌, ◌^◌, ◌&&◌, inl, [], eproto, ap, sym, ◌∙◌, inr,
  ltb→lt,
}
use libmp.Read.Children.{
  meta_body, body, Down, Env, after, go_down, is_type, read_head, Head, read_size, check_off_t,
  check_head, is_root,
}
use libmp.Read.Handler.{BoxType, box_type}
use libmp.Read.Headers.{RawFile}
use libmp.Read.{Cursor, check_size, read_32, read_be, advance, read_64}
use libmp.Read.Children.Loop.{box_read, skip_box, children_read}
use native.Mathlib.Decide.{dec_le}

-- The run has had the fuel.
abbrev pub Ends {ℓ} : {A : Type ℓ} → Option (Res A) → Type ℓ
Ends {A = A} run = (x : Res A) × (run ≡ some x)

after-Ends {ℓ κ} :
    {A : Type ℓ} {B : Type κ} (run : Option (Res A)) (next : A → Option (Res B))
    → Ends run
    → ((a : A) → run ≡ some (ok a) → Ends (next a))
    → Ends (after run next)
after-Ends none next h k = let stuck = h.1 in absurd cc
after-Ends (some fault) next h k = (fault, refl)
after-Ends (some (err e)) next h k = (err e, refl)
after-Ends (some (ok a)) next h k = k a refl

then-Ends {ℓ κ} :
    {A : Type ℓ} {B : Type κ} (call : Res A) (next : A → Option (Res B))
    → ((a : A) → call ≡ ok a → Ends (next a))
    → Ends (after (some call) next)
then-Ends fault next k = (fault, refl)
then-Ends (err e) next k = (err e, refl)
then-Ends (ok a) next k = k a refl

some-Ends {ℓ} : {A : Type ℓ} (x : Res A) → Ends (some x)
some-Ends x = (x, refl)

if-Ends {ℓ} :
    {A : Type ℓ} (b : Bool) (x y : Option (Res A)) → Ends x → Ends y → Ends (if b then x else y)
if-Ends true x y p q = p
if-Ends false x y p q = q

choose-Ends {ℓ} :
    {A : Type ℓ} (b : Bool) (x y : Option (Res A))
    → (b ≡ true → Ends x)
    → (b ≡ false → Ends y)
    → Ends (elim b [ true ↦ x | false ↦ y ])
choose-Ends true x y p q = p refl
choose-Ends false x y p q = q refl

-- The calls of the function itself on at most so many bytes have the fuel.
abbrev DownEnds : Down → ℕ → Type 0
DownEnds down max_bytes =
    (p : List BoxType) (t : Option ℕ) (m : ℕ) (g : RawFile) (o : ℕ)
    → m ≤ max_bytes
    → Ends (down p t m g o)

go_down-Ends :
    (down : Down) (max_bytes : ℕ)
    → DownEnds down max_bytes
    → (p : List BoxType) (t : Option ℕ) (m : ℕ) (g : RawFile) (c : Cursor) → m ≤ max_bytes
    → Ends (go_down down p t m g c)
go_down-Ends down max_bytes h p t m g c le =
    after-Ends (down p t m g c.offset) _ (h p t m g c.offset le) λ out e. some-Ends _

meta_body-Ends :
    (e : Env) (down : Down) (path : List BoxType) (track : Option ℕ) (max_bytes : ℕ) (f : RawFile)
    (c : Cursor)
    → DownEnds down max_bytes
    → Ends (meta_body e down path track max_bytes f c)
unfolding meta_body
meta_body-Ends e down path track max_bytes f c h =
    if-Ends (is_type BoxType.udta path) _ _
      (then-Ends (check_size max_bytes 4 >> read_32 e.pread c) _ λ r eq.
        go_down-Ends down max_bytes h (BoxType.meta ∷ path) track (max_bytes - 4) f r.1
          (omega arith))
      (if-Ends (is_type BoxType.moov path || is_type BoxType.trak path) _ _
        (go_down-Ends down max_bytes h (BoxType.meta ∷ path) track max_bytes f c (omega arith))
        (some-Ends _))

body-Ends :
    (e : Env) (down : Down) (path : List BoxType) (track : Option ℕ) (kind : BoxType)
    (max_bytes : ℕ) (f : RawFile) (c : Cursor)
    → DownEnds down max_bytes
    → Ends (body e down path track kind max_bytes f c)
unfolding body
body-Ends e down path track BoxType.root max_bytes f c h =
    if-Ends (is_type BoxType.ilst path) _ _
      (go_down-Ends down max_bytes h (BoxType.root ∷ path) track max_bytes f c (omega arith))
      (some-Ends _)
body-Ends e down path track BoxType.ftyp max_bytes f c h = some-Ends _
body-Ends e down path track BoxType.moov max_bytes f c h =
    go_down-Ends down max_bytes h (BoxType.moov ∷ path) track max_bytes f c (omega arith)
body-Ends e down path track BoxType.udta max_bytes f c h =
    go_down-Ends down max_bytes h (BoxType.udta ∷ path) track max_bytes f c (omega arith)
body-Ends e down path track BoxType.mvhd max_bytes f c h = some-Ends _
body-Ends e down path track BoxType.trak max_bytes f c h =
    then-Ends (guard (e.room c.offset) enomem) _
      λ done eq. go_down-Ends down max_bytes h (BoxType.trak ∷ path) _ max_bytes _ c (omega arith)
body-Ends e down path track BoxType.tkhd max_bytes f c h = some-Ends _
body-Ends e down path track BoxType.tref max_bytes f c h = some-Ends _
body-Ends e down path track BoxType.mdia max_bytes f c h =
    go_down-Ends down max_bytes h (BoxType.mdia ∷ path) track max_bytes f c (omega arith)
body-Ends e down path track BoxType.mdhd max_bytes f c h = some-Ends _
body-Ends e down path track BoxType.hdlr max_bytes f c h = some-Ends _
body-Ends e down path track BoxType.minf max_bytes f c h =
    go_down-Ends down max_bytes h (BoxType.minf ∷ path) track max_bytes f c (omega arith)
body-Ends e down path track BoxType.vmhd max_bytes f c h = some-Ends _
body-Ends e down path track BoxType.smhd max_bytes f c h = some-Ends _
body-Ends e down path track BoxType.hmhd max_bytes f c h = some-Ends _
body-Ends e down path track BoxType.nmhd max_bytes f c h = some-Ends _
body-Ends e down path track BoxType.dinf max_bytes f c h =
    go_down-Ends down max_bytes h (BoxType.dinf ∷ path) track max_bytes f c (omega arith)
body-Ends e down path track BoxType.stbl max_bytes f c h =
    go_down-Ends down max_bytes h (BoxType.stbl ∷ path) track max_bytes f c (omega arith)
body-Ends e down path track BoxType.stsd max_bytes f c h = some-Ends _
body-Ends e down path track BoxType.stts max_bytes f c h = some-Ends _
body-Ends e down path track BoxType.stss max_bytes f c h = some-Ends _
body-Ends e down path track BoxType.stsz max_bytes f c h = some-Ends _
body-Ends e down path track BoxType.stsc max_bytes f c h = some-Ends _
body-Ends e down path track BoxType.stco max_bytes f c h = some-Ends _
body-Ends e down path track BoxType.co64 max_bytes f c h = some-Ends _
body-Ends e down path track BoxType.meta max_bytes f c h =
    meta_body-Ends e down path track max_bytes f c h
body-Ends e down path track BoxType.keys max_bytes f c h = some-Ends _
body-Ends e down path track BoxType.ilst max_bytes f c h =
    then-Ends
      (if is_type BoxType.udta (drop 1 path)
        then e.others path track BoxType.ilst max_bytes f c
        else ok (f, c))
      _
      λ r eq. go_down-Ends down max_bytes h (BoxType.ilst ∷ path) track max_bytes _ c (omega arith)
body-Ends e down path track BoxType.item max_bytes f c h = some-Ends _
body-Ends e down path track BoxType.location max_bytes f c h = some-Ends _
body-Ends e down path track BoxType.uuid max_bytes f c h = some-Ends _
body-Ends e down path track BoxType.other max_bytes f c h =
    if-Ends (is_type BoxType.ilst path) _ _
      (go_down-Ends down max_bytes h (BoxType.other ∷ path) track max_bytes f c (omega arith))
      (some-Ends _)

-- A box that is read and left is no shorter than its head.
box_read-long :
    (e : Env) (down : Down) (path : List BoxType) (track : Option ℕ) (h : Head) (before : ℕ)
    (f : RawFile) (offset : ℕ) (r : RawFile × ℕ)
    → box_read e down path track h before f offset ≡ some (ok r)
    → before ≤ h.size
unfolding box_read skip_box
box_read-long e down path track h before f offset r eq = elim (dec_le before h.size) [
  | yes le ↦ le
  | no short ↦ ground (arith, eq, short)
]

box_read-Ends :
    (e : Env) (down : Down) (path : List BoxType) (track : Option ℕ) (h : Head) (before : ℕ)
    (f : RawFile) (offset : ℕ)
    → DownEnds down (h.size - before)
    → Ends (box_read e down path track h before f offset)
unfolding box_read
box_read-Ends e down path track h before f offset d =
    choose-Ends (ltb h.size before || ltb e.size (h.size - before)) _ _ (λ p. some-Ends _)
      (λ p.
        after-Ends
          (body e down path track h.kind (h.size - before) f record { offset = offset; count = 0 })
          _
          (body-Ends e down path track h.kind (h.size - before) f
            record { offset = offset; count = 0 } d)
          λ r eq. some-Ends _)

read_be-count :
    (n : ℕ) (pread : ℕ → ℕ → Res (List ℕ)) (c : Cursor) (r : ℕ × Cursor)
    → read_be n pread c ≡ ok r
    → r.1.count ≡ c.count + n
unfolding read_be advance
read_be-count n pread c r eq =
    let (bytes, _, p) = >>=-eq-ok (pread c.offset n) _ eq in
    let (_, _, q) = >>=-eq-ok (guard (length bytes == n) eio) _ p in
    let e = ok_eq q in rw (← e) refl

read_size-long :
    (e : Env) (max_bytes done n : ℕ) (kind : BoxType) (c : Cursor) (r : Head × Cursor)
    → read_size e max_bytes done n kind c ≡ ok r
    → c.count ≤ r.1.count
unfolding read_size read_64
read_size-long e max_bytes done zero kind c r eq = let q = ok_eq eq in rw (← q) (omega arith)
read_size-long e max_bytes done (suc zero) kind c r eq =
    let (_, _, p) = >>=-eq-ok (guard (leb (done + 16) max_bytes) einval) _ eq in
    let (large, big, q) = >>=-eq-ok (read_64 e.pread c) _ p in
    let (hi, first, s) = >>=-eq-ok (read_32 e.pread c) _ big in
    let (lo, second, u) = >>=-eq-ok (read_32 e.pread hi.1) _ s in
    let m = read_be-count 4 e.pread c hi first in
    let n = read_be-count 4 e.pread hi.1 lo second in
    let v = ok_eq q in let w = ok_eq u in rw (← v) (rw (← w) (omega (arith, m, n)))
read_size-long e max_bytes done (suc (suc n)) kind c r eq =
    let q = ok_eq eq in rw (← q) (omega arith)

and-right : (a b : Bool) → (a && b) ≡ true → b ≡ true
and-right true b h = h
and-right false b h = absurd cc

check_off_t-count :
    (done : ℕ) (h r : Head × Cursor) → check_off_t done h ≡ ok r → r.1.count ≡ h.1.count
unfolding check_off_t
check_off_t-count done h r eq = elim (Bool-cases (ltb (done + h.0.size) (2 ^ 63))) [
  | inl fits ↦
      ap (λ x. x.1.count) (sym (ok_eq (sym (ap (λ b. if b then ok h else fault) fits) ∙ eq)))
  | inr over ↦ let stuck = sym (ap (λ b. if b then ok h else fault) over) ∙ eq in absurd cc
]

check_head-long :
    (e : Env) (path : List BoxType) (max_bytes done : ℕ) (first : Bool) (size kind : ℕ) (c : Cursor)
    (r : Head × Cursor)
    → check_head e path max_bytes done first size kind c ≡ ok r
    → c.count ≤ r.1.count
unfolding check_head
check_head-long e path max_bytes done first size kind c r eq =
    let (_, _, p) =
      >>=-eq-ok
        (guard (not (is_root path && first) || is_type BoxType.ftyp (box_type kind ∷ [])) eproto) _
        eq in
    let (h, sized, q) = >>=-eq-ok (read_size e max_bytes done size (box_type kind) c) _ p in
    let k = read_size-long e max_bytes done size (box_type kind) c h sized in
    omega (arith, k, check_off_t-count done h r q)

-- The head of a box has 8 bytes or more.
read_head-long :
    (e : Env) (path : List BoxType) (max_bytes done : ℕ) (first : Bool) (c : Cursor)
    (r : Head × Cursor)
    → read_head e path max_bytes done first c ≡ ok r
    → c.count + 8 ≤ r.1.count
unfolding read_head
read_head-long e path max_bytes done first c r eq =
    let (_, _, p) = >>=-eq-ok (guard (e.room c.offset) enomem) _ eq in
    let (size, first_word, q) = >>=-eq-ok (read_32 e.pread c) _ p in
    let (kind, second_word, s) = >>=-eq-ok (read_32 e.pread size.1) _ q in
    let m = read_be-count 4 e.pread c size first_word in
    let n = read_be-count 4 e.pread size.1 kind second_word in
    let k = check_head-long e path max_bytes done first size.0 kind.0 kind.1 r s in
    omega (arith, m, n, k)

-- Whatever the file holds, and whatever the readers of the other boxes do, fuel above the number of
-- bytes that are left of the box is enough: every box that is gone by takes 8 bytes or more, and so
-- does every box that is gone into.
pub children_read-Ends :
    (fuel : ℕ) (e : Env) (path : List BoxType) (track : Option ℕ) (max_bytes : ℕ) (f : RawFile)
    (offset done : ℕ) (first : Bool)
    → max_bytes - done < fuel
    → Ends (children_read fuel e path track max_bytes f offset done first)
unfolding children_read
children_read-Ends zero e path track max_bytes f offset done first h = absurd (omega arith)
children_read-Ends (suc fuel) e path track max_bytes f offset done first h =
    choose-Ends (ltb offset e.size && ltb (done + 8) max_bytes) _ _
      (λ more.
        then-Ends (read_head e path max_bytes done first record { offset = offset; count = 0 }) _
          λ r head.
            let long = read_head-long e path max_bytes done first _ r head in
            choose-Ends (ltb max_bytes (done + r.0.size)) _ _ (λ cut. some-Ends _)
              λ whole.
                let room = ltb→lt (done + 8) max_bytes (and-right (ltb offset e.size) _ more) in
                let inner : done + r.0.size ≤ max_bytes = ground (arith, whole) in
                let down : Down = λ p t m g o. children_read fuel e p t m g o 0 true in
                after-Ends (box_read e down path track r.0 r.1.count f r.1.offset) _
                  (box_read-Ends e down path track r.0 r.1.count f r.1.offset λ p t m g o le.
                    children_read-Ends fuel e p t m g o 0 true
                      (omega (arith, le, long, room, inner, h)))
                  λ s eq.
                    let size = box_read-long e down path track r.0 r.1.count f r.1.offset s eq in
                    choose-Ends r.0.last _ _ (λ l. some-Ends _)
                      λ l.
                        children_read-Ends fuel e path track max_bytes s.0 s.1 (done + r.0.size)
                          false (omega (arith, size, long, room, inner, h)))
      λ over. some-Ends _
