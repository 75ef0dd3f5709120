-- ===== src/Carry/Passes.antt =====
-- src/mp4_box_writer.c and src/mp4_box_reader.c together: a table of a track among the boxes that
-- `mp4_box_children_read` goes through.
use libmp.Read.Children.{on_track, Env, is_root, Down, body}
use libmp.Prelude.{
  List, ℕ, set, Res, Bool, ◌<◌, ◌≡◌, ◌+◌, length, false, ◌∷◌, ◌≤◌, suc, ok, true, ◌^◌, ap, some,
  get_elem?-set_self, [], refl, bind-ok, ◌∙◌, zero, arith, ◌-◌, sym, ◌*◌, ok_eq, ◌%◌, ◌++◌,
}
use libmp.Read.Headers.{RawFile}
use libmp.Read.Handler.{BoxType, box_type}
use libmp.Read.Tables.{RawTrack}
use libmp.Track.{read_at}
use libmp.Read.{Cursor, advance}
use libmp.Read.Holds.{Holds, file_pread}
use libmp.Bytes.{words}
use libmp.Read.Children.Loop.{children_read}
use libmp.Carry.Tables.{inside, IsCarried}
use libmp.Read.Children.Passed.{opened, children_read-box, children_down}
use mathlib.Core.Path.{subst}
use libmp.Read.Each.{flat}
use libmp.Write.Tables.{write_table}
use libmp.Write.Exact.{write_table-fits, table_words}

-- The file, with the track in its place in the list
abbrev pub with_raw : RawFile → ℕ → RawTrack → RawFile
with_raw f i raw = record f { tracks = set f.tracks i raw }

set-set_lem : (xs : List RawTrack) (i : ℕ) (a b : RawTrack) → set (set xs i a) i b ≡ set xs i b
set-set_lem [] i a b = refl
set-set_lem (x ∷ xs) zero a b = refl
set-set_lem (x ∷ xs) (suc i) a b = ap (λ ys. x ∷ ys) (set-set_lem xs i a b)

on_track-set :
    (f : RawFile) (i : ℕ) (raw u : RawTrack) (c : Cursor)
    (read : RawTrack → Res (RawTrack × Cursor))
    → i < length f.tracks
    → read raw ≡ ok (u, c)
    → on_track (with_raw f i raw) (some i) read ≡ ok (with_raw f i u, c)
unfolding on_track read_at
on_track-set f i raw u c read here found =
    let there : read_at (set f.tracks i raw) i ≡ ok raw =
      rw (get_elem?-set_self f.tracks i raw here, read_at) refl in
    bind-ok _ there
    ∙ bind-ok _ found
    ∙ ap (λ ts. ok (record f { tracks = ts }, c)) (set-set_lem f.tracks i raw u)

-- The loop goes past the bytes, and the track is another behind them.
abbrev pub Passes : Env → List BoxType → ℕ → RawFile → RawTrack → RawTrack → List ℕ → Type 0
Passes e path i f raw raw' bytes =
    (fuel max_bytes offset done : ℕ) (first : Bool)
    → Holds e.pread offset bytes
    → offset + length bytes ≤ e.size
    → done + length bytes ≤ max_bytes
    → max_bytes < 2 ^ 63
    → children_read (suc fuel) e path (some i) max_bytes (with_raw f i raw) offset done first
      ≡ children_read fuel e path (some i) max_bytes (with_raw f i raw') (offset + length bytes)
          (done + length bytes) false

-- A box that is written, and that its reader reads, is passed.
pub box-Passes :
    (e : Env) (path : List BoxType) (i : ℕ) (f : RawFile) (raw raw' : RawTrack) (bytes ws : List ℕ)
    (kind rest : ℕ)
    (read : (ℕ → ℕ → Res (List ℕ)) → ℕ → RawTrack → Cursor → Res (RawTrack × Cursor))
    → is_root path ≡ false
    → ((n : ℕ) → e.room n ≡ true)
    → i < length f.tracks
    → 0 < rest
    → 8 + rest < 2 ^ 32
    → kind < 2 ^ 32
    → bytes ≡ words ((8 + rest) ∷ kind ∷ ws)
    → length bytes ≡ 8 + rest
    → ((pread : ℕ → ℕ → Res (List ℕ)) (offset : ℕ)
        → Holds pread offset bytes
        → read pread rest raw (inside offset) ≡ ok (raw', advance (inside offset) rest))
    → ((down : Down) (g : RawFile) (c : Cursor)
        → body e down path (some i) (box_type kind) rest g c
          ≡ some (on_track g (some i) (λ t. read e.pread rest t c)))
    → Passes e path i f raw raw' bytes
box-Passes e path i f raw raw' bytes ws kind rest read inner room here more small spelt same size
      found step fuel max_bytes offset done first h whole fits far =
    let same_start : offset + 8 ≡ offset + 4 + 4 = omega arith in
    let at : read e.pread rest raw (opened offset) ≡ ok (raw', advance (opened offset) rest) =
      subst
        (λ o.
          read e.pread rest raw record { offset = o; count = 0 }
          ≡ ok (raw', advance record { offset = o; count = 0 } rest))
        same_start (found e.pread offset h) in
    let cut : 8 + rest - 8 ≡ rest = omega arith in
    children_read-box fuel e path (some i) max_bytes (with_raw f i raw) (with_raw f i raw') offset
      done (8 + rest) kind first ws inner (room offset) (omega arith) small spelt
      (omega (arith, size, whole)) (omega (arith, size, fits)) (omega (arith, size, fits, more)) far
      (subst (Holds e.pread offset) same h)
      (subst
        (λ r.
          body e (children_down fuel e) path (some i) (box_type kind) r (with_raw f i raw)
            (opened offset)
          ≡ some (ok (with_raw f i raw', advance (opened offset) r)))
        (sym cut)
        (step (children_down fuel e) (with_raw f i raw) (opened offset)
          ∙ ap some (
              on_track-set f i raw raw' (advance (opened offset) rest)
                (λ t. read e.pread rest t (opened offset)) here at)))
    ∙ ap
        (λ n.
          children_read fuel e path (some i) max_bytes (with_raw f i raw') (offset + n) (done + n)
            false)
        (sym size)

-- A file with memory to be had, whose boxes of the other kinds are read to their end and left
abbrev pub plain_env : List ℕ → Env
plain_env file = record {
  pread = file_pread file;
  size = length file;
  room = λ n. true;
  others = λ path track kind max_bytes f c. ok (f, advance c max_bytes);
}

-- What is written is passed.
abbrev pub WritesPast : List BoxType → ℕ → RawFile → RawTrack → RawTrack → Res (List ℕ) → ℕ → Type 0
WritesPast path i f raw raw' written size =
    (bytes : List ℕ) × (written ≡ ok bytes)
    × (length bytes ≡ size)
    × ((file : List ℕ) → Passes (plain_env file) path i f raw raw' bytes)

-- A table that is written and read back is passed.
pub table_passes {ℓ} :
    {A : Type ℓ} (path : List BoxType) (i : ℕ) (f : RawFile) (raw raw' : RawTrack)
    (max_bytes kind before width rest : ℕ) (head : List ℕ) (enc : A → List ℕ) (es : List A)
    (read : (ℕ → ℕ → Res (List ℕ)) → ℕ → RawTrack → Cursor → Res (RawTrack × Cursor))
    → 0 < length es
    → is_root path ≡ false
    → i < length f.tracks
    → before + width * length es ≡ 8 + rest
    → 0 < rest
    → 8 + rest < 2 ^ 32
    → kind < 2 ^ 32
    → 4 * length (flat enc es) ≡ width * length es
    → before ≡ 12 + 4 * length head
    → 8 + rest ≤ max_bytes
    → IsCarried
        (write_table max_bytes kind before width head enc es)
        rest
        (λ pread body c. read pread body raw c)
        raw'
    → ((file : List ℕ) (down : Down) (g : RawFile) (c : Cursor)
        → body (plain_env file) down path (some i) (box_type kind) rest g c
          ≡ some (on_track g (some i) (λ t. read (file_pread file) rest t c)))
    → WritesPast path i f raw raw' (write_table max_bytes kind before width head enc es) (8 + rest)
table_passes path i f raw raw' max_bytes kind before width rest head enc [] read any inner here size
      more small spelt wide b room carried step =
    absurd (omega arith)
table_passes path i f raw raw' max_bytes kind before width rest head enc (e ∷ es) read any inner
      here size more small spelt wide b room carried step =
    let (bytes, written, long, found) = carried in
    let fits =
      write_table-fits max_bytes kind before width head enc e es wide b (omega (arith, size, small))
        (omega (arith, size, room)) in
    let same : bytes ≡ words (table_words kind before width head enc (e ∷ es)) =
      ok_eq (sym written ∙ fits) in
    let first : before + width * length (e ∷ es) % 2 ^ 32 ≡ 8 + rest = omega (arith, size, small) in
    (
      bytes,
      written,
      long,
      λ file.
          box-Passes (plain_env file) path i f raw raw' bytes
            (head ++ (length (e ∷ es) ∷ flat enc (e ∷ es))) kind rest read inner (λ n. refl) here
            more small spelt
            (same
              ∙ ap (λ n. words (n ∷ kind ∷ head ++ (length (e ∷ es) ∷ flat enc (e ∷ es)))) first)
            long found (step file),
    )
