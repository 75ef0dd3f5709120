-- ===== src/Carry/Chain.antt =====
-- src/mp4_box_writer.c and src/mp4_box_reader.c together: the boxes in a container, written one behind
-- the other, and gone through by the loop of `mp4_box_children_read`.
use libmp.Prelude.{
  List, ℕ, ◌∷◌, some, [], ◌≡◌, ◌++◌, suc, Bool, ok, ◌-◌, ◌≤◌, ap, length, ◌+◌, sym, bind-ok, ◌<◌,
  ◌^◌, ◌∙◌, none, ltb, ◌&&◌, false, arith, length-append, drop, ◌==◌, if◌then◌else◌,
}
use libmp.Write.Headers.{container_write, container_loop, Writer}
use libmp.Read.Children.{Env}
use libmp.Read.Children.Loop.{children_read}
use libmp.Read.Tables.{RawTrack}
use libmp.Read.Handler.{BoxType}
use libmp.Write.{fix_size}
use libmp.Bytes.{words, be_32, length-words}
use libmp.Read.Headers.{RawFile}
use libmp.Carry.Passes.{Passes, with_raw}
use libmp.Read.Holds.{Holds, Holds-left, Holds-right}
use mathlib.Core.List.{append-nil, append_assoc}
use libmp.Write.Exact.{write_words-fits}
use libmp.Read.Children.Found.{choose-no}

-- Boxes, each with the track that the reader has behind it
abbrev pub Boxes : Type 0
Boxes = List (RawTrack × List ℕ)

abbrev pub bytes_of : Boxes → List ℕ
bytes_of [] = []
bytes_of ((raw, bytes) ∷ rest) = bytes ++ bytes_of rest

abbrev pub last_of : RawTrack → Boxes → RawTrack
last_of raw [] = raw
last_of raw ((raw', bytes) ∷ rest) = last_of raw' rest

-- Each box is passed.
abbrev pub AllPass : Env → List BoxType → ℕ → RawFile → RawTrack → Boxes → Type 0
AllPass e path i f raw [] = Unit
AllPass e path i f raw ((raw', bytes) ∷ rest) =
    Passes e path i f raw raw' bytes × AllPass e path i f raw' rest

-- One round for each box, and `k` more
abbrev pub rounds_for : Boxes → ℕ → ℕ
rounds_for [] k = k
rounds_for (box ∷ rest) k = suc (rounds_for rest k)

-- Boxes that fill a box up are all read.
pub boxes_read :
    (e : Env) (path : List BoxType) (i : ℕ) (f : RawFile) (raw : RawTrack) (boxes : Boxes)
    (k max_bytes offset done : ℕ) (first : Bool)
    → AllPass e path i f raw boxes
    → Holds e.pread offset (bytes_of boxes)
    → offset + length (bytes_of boxes) ≤ e.size
    → done + length (bytes_of boxes) ≡ max_bytes
    → max_bytes < 2 ^ 63
    → children_read
        (rounds_for boxes (suc k))
        e
        path
        (some i)
        max_bytes
        (with_raw f i raw)
        offset
        done
        first
      ≡ some (
          ok record {
            file = with_raw f i (last_of raw boxes);
            count = max_bytes;
            offset = offset + length (bytes_of boxes);
          })
unfolding children_read
boxes_read e path i f raw [] k max_bytes offset done first pass h whole full far =
    let over : (ltb offset e.size && ltb (done + 8) max_bytes) ≡ false = ground (arith, full) in
    let at : done ≡ max_bytes = omega (arith, full) in
    let here : offset ≡ offset + 0 = omega arith in
    choose-no _ _ over
    ∙ ap (λ n. some (ok (record { file = with_raw f i raw; count = n; offset = offset }))) at
    ∙ ap (λ n. some (ok (record { file = with_raw f i raw; count = max_bytes; offset = n }))) here
boxes_read e path i f raw ((raw', bytes) ∷ rest) k max_bytes offset done first pass h whole full
      far =
    let both = length-append bytes (bytes_of rest) in
    let there : offset + length bytes + length (bytes_of rest)
        ≡ offset + length (bytes ++ bytes_of rest) =
      omega (arith, both) in
    pass.0 (rounds_for rest (suc k)) max_bytes offset done first
      (Holds-left e.pread offset bytes (bytes_of rest) h) (omega (arith, both, whole))
      (omega (arith, both, full)) far
    ∙ boxes_read e path i f raw' rest k max_bytes (offset + length bytes) (done + length bytes)
        false pass.1 (Holds-right e.pread offset bytes (bytes_of rest) h)
        (omega (arith, both, whole)) (omega (arith, both, full)) far
    ∙ ap
        (λ n.
          some (
            ok (record { file = with_raw f i (last_of raw' rest); count = max_bytes; offset = n })))
        there

-- Each writer leaves its box in what is left of the buffer.
abbrev pub AllWritten : ℕ → List ℕ → List Writer → Boxes → Type 0
AllWritten max_bytes out (some write ∷ writers) ((raw, bytes) ∷ rest) =
    (write (max_bytes - length out) ≡ ok bytes) × AllWritten max_bytes (out ++ bytes) writers rest
AllWritten max_bytes out [] [] = Unit
AllWritten max_bytes out writers boxes = ⊥

container_loop-AllWritten :
    (max_bytes : ℕ) (out : List ℕ) (writers : List Writer) (boxes : Boxes)
    → AllWritten max_bytes out writers boxes
    → container_loop max_bytes writers out ≡ ok (out ++ bytes_of boxes)
unfolding container_loop
container_loop-AllWritten max_bytes out [] [] w = ap ok (sym (append-nil out))
container_loop-AllWritten max_bytes out [] (box ∷ boxes) w = absurd w
container_loop-AllWritten max_bytes out (none ∷ writers) boxes w = absurd w
container_loop-AllWritten max_bytes out (some write ∷ writers) [] w = absurd w
container_loop-AllWritten max_bytes out (some write ∷ writers) ((raw, bytes) ∷ rest) w =
    bind-ok _ w.0
    ∙ container_loop-AllWritten max_bytes (out ++ bytes) writers rest w.1
    ∙ ap ok (append_assoc out bytes (bytes_of rest))

fix_size-zero :
    (out : List ℕ) (n : ℕ) → length out ≡ n → 0 < n → fix_size 0 out ≡ be_32 n ++ drop 4 out
unfolding fix_size
fix_size-zero out n same some_bytes =
    let other : (0 == length out) ≡ false = ground (arith, same, some_bytes) in
    ap (λ b. if b then out else be_32 (length out) ++ drop 4 out) other
    ∙ ap (λ k. be_32 k ++ drop 4 out) same

-- The container's box: its size, its type and the boxes
pub container_write-AllWritten :
    (max_bytes kind : ℕ) (writers : List Writer) (boxes : Boxes)
    → 8 ≤ max_bytes
    → AllWritten max_bytes (words (0 ∷ kind ∷ [])) writers boxes
    → container_write max_bytes kind writers
      ≡ ok (words ((8 + length (bytes_of boxes)) ∷ kind ∷ []) ++ bytes_of boxes)
unfolding container_write fix_size words be_32
container_write-AllWritten max_bytes kind writers boxes room w =
    bind-ok _ (write_words-fits max_bytes (0 ∷ kind ∷ []) [] room)
    ∙ bind-ok _ (container_loop-AllWritten max_bytes (words (0 ∷ kind ∷ [])) writers boxes w)
    ∙ ap ok (
        fix_size-zero (words (0 ∷ kind ∷ []) ++ bytes_of boxes) (8 + length (bytes_of boxes))
          (omega (
            arith,
            length-append (words (0 ∷ kind ∷ [])) (bytes_of boxes),
            length-words (0 ∷ kind ∷ []),
          ))
          (omega arith))
