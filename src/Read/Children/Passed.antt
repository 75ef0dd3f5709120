-- ===== src/Read/Children/Passed.antt =====
-- src/mp4_box_reader.c: the loop of `mp4_box_children_read` at a box that stands in a file.
use libmp.Read.Children.Loop.{skip_box, children_read, box_read}
use libmp.Prelude.{
  ℕ, List, ◌+◌, ◌≤◌, ◌-◌, Option, Bool, ◌≡◌, some, ok, false, arith, ltb, guard-leb, true, ◌||◌,
  ◌<◌, eio, ◌∙◌, ◌^◌, ap, ◌∷◌, suc, not, ◌&&◌, [],
}
use libmp.Read.Children.{Env, Down, body, is_root, is_type}
use libmp.Read.{Cursor, advance}
use libmp.Read.Headers.{RawFile}
use libmp.Read.Handler.{BoxType, box_type}
use libmp.Read.Children.Found.{choose-no, after-ok, read_head-words, read_size-plain, choose-yes}
use libmp.Read.Holds.{Holds}
use libmp.Bytes.{words}

-- Where the switch begins on a box at an offset
abbrev pub opened : ℕ → Cursor
opened offset = record { offset = offset + 4 + 4; count = 0 }

skip_box-whole :
    (size : ℕ) (f : RawFile) (offset : ℕ)
    → 8 ≤ size
    → skip_box size 8 (f, advance (opened offset) (size - 8)) ≡ ok (f, offset + size)
unfolding skip_box advance
skip_box-whole size f offset h =
    let read : 8 + (0 + (size - 8)) ≡ size = omega arith in
    let there : offset + 4 + 4 + (size - 8) + (size - (8 + (0 + (size - 8)))) ≡ offset + size =
      omega arith in
    guard-leb (8 + (0 + (size - 8))) size eio _ (omega arith) ∙ ap (λ n. ok (f, n)) there

box_read-whole :
    (e : Env) (down : Down) (path : List BoxType) (track : Option ℕ) (kind : BoxType) (size : ℕ)
    (f f' : RawFile) (offset : ℕ)
    → 8 ≤ size
    → size ≤ e.size
    → body e down path track kind (size - 8) f (opened offset)
      ≡ some (ok (f', advance (opened offset) (size - 8)))
    → box_read e down path track
        record { kind = kind; size = size; last = false }
        8
        f
        (offset + 4 + 4)
      ≡ some (ok (f', offset + size))
unfolding box_read
box_read-whole e down path track kind size f f' offset long fits read =
    let goes : (ltb size 8 || ltb e.size (size - 8)) ≡ false = ground (arith, long, fits) in
    choose-no _ _ goes ∙ after-ok _ read ∙ ap some (skip_box-whole size f' offset long)

-- The call of the function on a box's children
abbrev pub children_down : ℕ → Env → Down
children_down fuel e = λ p t m g o. children_read fuel e p t m g o 0 true

-- A box whose body is read to its end is passed.
pub children_read-box :
    (fuel : ℕ) (e : Env) (path : List BoxType) (track : Option ℕ) (max_bytes : ℕ) (f f' : RawFile)
    (offset done size kind : ℕ) (first : Bool) (ws : List ℕ)
    → is_root path ≡ false
    → e.room offset ≡ true
    → 8 ≤ size
    → size < 2 ^ 32
    → kind < 2 ^ 32
    → offset + size ≤ e.size
    → done + size ≤ max_bytes
    → done + 8 < max_bytes
    → max_bytes < 2 ^ 63
    → Holds e.pread offset (words (size ∷ kind ∷ ws))
    → body e (children_down fuel e) path track (box_type kind) (size - 8) f (opened offset)
      ≡ some (ok (f', advance (opened offset) (size - 8)))
    → children_read (suc fuel) e path track max_bytes f offset done first
      ≡ children_read fuel e path track max_bytes f' (offset + size) (done + size) false
unfolding children_read
children_read-box fuel e path track max_bytes f f' offset done size kind first ws inner room long
      small spelt whole fits more far h read =
    let allowed = ap (λ b. not (b && first) || is_type BoxType.ftyp (box_type kind ∷ [])) inner in
    let found =
      read_head-words e path max_bytes done first offset size kind ws _ _ allowed room small spelt h
        (read_size-plain e max_bytes done size (box_type kind) _ (omega arith))
        (omega (arith, fits, far)) in
    let loops : (ltb offset e.size && ltb (done + 8) max_bytes) ≡ true =
      ground (arith, whole, long, more) in
    let kept : ltb max_bytes (done + size) ≡ false = ground (arith, fits) in
    choose-yes _ _ loops
    ∙ after-ok _ (ap some found)
    ∙ choose-no _ _ kept
    ∙ after-ok _ (
        box_read-whole e (children_down fuel e) path track (box_type kind) size f f' offset long
          (omega arith) read)
