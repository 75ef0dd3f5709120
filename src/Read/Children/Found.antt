-- ===== src/Read/Children/Found.antt =====
-- src/mp4_box_reader.c: the head of a box that stands in a file.
use libmp.Read.Children.{
  check_off_t, read_size, read_head, check_head, Env, Head, is_root, is_type, after,
}
use libmp.Prelude.{
  Bool, not, ℕ, false, ◌&&◌, List, ◌||◌, true, ◌≡◌, ◌≤◌, ◌+◌, ok, refl, ◌<◌, ◌^◌, arith, ap, suc,
  ◌∷◌, [], if◌then◌else◌, fault, lt→ltb, guard-yes, enomem, ◌∙◌, bind-ok, eproto, zero, Option, Res,
  some,
}
use libmp.Read.Handler.{BoxType, box_type}
use libmp.Read.{advance, Cursor}
use libmp.Read.Holds.{Holds}
use libmp.Bytes.{words}
use libmp.Read.Each.{read_32-word}

pub read_size-zero :
    (e : Env) (max_bytes done : ℕ) (kind : BoxType) (c : Cursor)
    → read_size e max_bytes done 0 kind c
      ≡ ok (record { kind = kind; size = e.size; last = true }, c)
unfolding read_size
read_size-zero e max_bytes done kind c = refl

-- A size above 1 is the size.
pub read_size-plain :
    (e : Env) (max_bytes done size : ℕ) (kind : BoxType) (c : Cursor)
    → 2 ≤ size
    → read_size e max_bytes done size kind c
      ≡ ok (record { kind = kind; size = size; last = false }, c)
unfolding read_size
read_size-plain e max_bytes done zero kind c h = absurd (omega arith)
read_size-plain e max_bytes done (suc zero) kind c h = absurd (omega arith)
read_size-plain e max_bytes done (suc (suc n)) kind c h = refl

-- No type is asked of a box that is not the first one.
pub later_box : (b y : Bool) → (not (b && false) || y) ≡ true
later_box true y = refl
later_box false y = refl

-- Nor of one that is not in the root.
pub inner_box : (y : Bool) → (not (false && true) || y) ≡ true
inner_box y = refl

check_off_t-fits :
    (done : ℕ) (r : Head × Cursor) → done + r.0.size < 2 ^ 63 → check_off_t done r ≡ ok r
unfolding check_off_t
check_off_t-fits done r h =
    ap (λ b. if b then ok r else fault) (lt→ltb (done + r.0.size) (2 ^ 63) h)

-- A head is read from its two words, if the size is.
pub read_head-words :
    (e : Env) (path : List BoxType) (max_bytes done : ℕ) (first : Bool) (offset size kind : ℕ)
    (ws : List ℕ) (h : Head) (c : Cursor)
    → (not (is_root path && first) || is_type BoxType.ftyp (box_type kind ∷ [])) ≡ true
    → e.room offset ≡ true
    → size < 2 ^ 32
    → kind < 2 ^ 32
    → Holds e.pread offset (words (size ∷ kind ∷ ws))
    → read_size e max_bytes done size (box_type kind) record { offset = offset + 4 + 4; count = 8 }
      ≡ ok (h, c)
    → done + h.size < 2 ^ 63
    → read_head e path max_bytes done first record { offset = offset; count = 0 } ≡ ok (h, c)
unfolding read_head check_head advance
read_head-words e path max_bytes done first offset size kind ws h c allowed room small_size
      small_kind holds sized fits =
    let c0 : Cursor = record { offset = offset; count = 0 } in
    let (length, h1) = read_32-word e.pread c0 size (kind ∷ ws) small_size holds in
    let (spelt, _) = read_32-word e.pread (advance c0 4) kind ws small_kind h1 in
    guard-yes enomem _ room
    ∙ bind-ok _ length
    ∙ bind-ok _ spelt
    ∙ guard-yes eproto _ allowed
    ∙ bind-ok _ sized
    ∙ check_off_t-fits done (h, c) fits

-- The branch that a test takes, and what follows a call that has given a value
pub choose-yes {ℓ} :
    {A : Type ℓ} {b : Bool} (x y : A) → b ≡ true → (elim b [ true ↦ x | false ↦ y ]) ≡ x
choose-yes x y h = ap (λ b. elim b [ true ↦ x | false ↦ y ]) h

pub choose-no {ℓ} :
    {A : Type ℓ} {b : Bool} (x y : A) → b ≡ false → (elim b [ true ↦ x | false ↦ y ]) ≡ y
choose-no x y h = ap (λ b. elim b [ true ↦ x | false ↦ y ]) h

pub after-ok {ℓ κ} :
    {A : Type ℓ} {B : Type κ} {run : Option (Res A)} {a : A} (next : A → Option (Res B))
    → run ≡ some (ok a)
    → after run next ≡ next a
after-ok next h = ap (λ r. after r next) h
