-- ===== src/Carry/Stored.antt =====
-- src/mp4_mux.c, src/mp4_box_writer.c and src/mp4_box_reader.c together: a sample table box in a file.
use libmp.Carry.Chain.{Boxes, bytes_of, AllPass, rounds_for, last_of, boxes_read}
use libmp.Prelude.{
  List, length, ℕ, ◌≡◌, ◌+◌, arith, ◌∷◌, false, length-append, ◌<◌, [], ◌≤◌, ◌^◌, ◌++◌, suc, some,
  true, ok, ◌∙◌, ap, sym, refl, ◌-◌,
}
use libmp.Read.Children.{body, Env, is_root}
use libmp.Read.Handler.{box_type, BoxType}
use libmp.Bytes.{words, length-words}
use libmp.Read.{advance}
use libmp.Read.Headers.{RawFile}
use libmp.Read.Tables.{RawTrack}
use libmp.Write.Stbl.{type_stbl, stbl_write}
use libmp.Read.Holds.{Holds, file_pread-Holds, file_pread, Holds-right, Holds-left}
use libmp.Read.Children.Passed.{children_down, opened, children_read-box}
use libmp.Carry.Passes.{plain_env, with_raw}
use libmp.Read.Children.Loop.{children_read}
use libmp.Read.Children.Found.{after-ok}
use mathlib.Core.Path.{subst}
use libmp.Mux.{MuxTrack}
use libmp.Carry.Stbl.{Storable}
use libmp.Carry.Whole.{HasNoTables, stbl_size, with_tables, stbl_boxes}
use mathlib.Core.List.{append-nil}

-- The box, with its size and its type
abbrev stbl_bytes : Boxes → List ℕ
stbl_bytes boxes = words ((8 + length (bytes_of boxes)) ∷ type_stbl ∷ []) ++ bytes_of boxes

length-stbl_bytes : (boxes : Boxes) → length (stbl_bytes boxes) ≡ 8 + length (bytes_of boxes)
length-stbl_bytes boxes = omega (
  arith,
  length-append (words ((8 + length (bytes_of boxes)) ∷ type_stbl ∷ [])) (bytes_of boxes),
  length-words ((8 + length (bytes_of boxes)) ∷ type_stbl ∷ []),
)

-- The boxes in the box are read, and the whole of it with them.
stbl_body :
    (e : Env) (path : List BoxType) (i : ℕ) (f : RawFile) (raw : RawTrack) (boxes : Boxes)
    (offset n : ℕ)
    → n ≡ length (bytes_of boxes)
    → AllPass e (BoxType.stbl ∷ path) i f raw boxes
    → Holds e.pread (offset + 4 + 4) (bytes_of boxes)
    → offset + 4 + 4 + length (bytes_of boxes) ≤ e.size
    → n < 2 ^ 63
    → body e
        (children_down (rounds_for boxes 1) e)
        path
        (some i)
        (box_type type_stbl)
        n
        (with_raw f i raw)
        (opened offset)
      ≡ some (ok (with_raw f i (last_of raw boxes), advance (opened offset) n))
unfolding body box_type advance
stbl_body e path i f raw boxes offset n same pass h whole small =
    after-ok _ (
      boxes_read e (BoxType.stbl ∷ path) i f raw boxes 0 n (offset + 4 + 4) 0 true pass h whole
        (omega (arith, same)) small)
    ∙ ap
        (λ k. some (
          ok (
            with_raw f i (last_of raw boxes),
            record { offset = offset + 4 + 4 + k; count = 0 + n },
          )))
        (sym same)

rounds_for-suc : (boxes : Boxes) (k : ℕ) → (m : ℕ) × (rounds_for boxes (suc k) ≡ suc m)
rounds_for-suc [] k = (k, refl)
rounds_for-suc (box ∷ rest) k = (rounds_for rest (suc k), refl)

-- The loop ends behind the last box.
loop_over :
    (e : Env) (path : List BoxType) (i : ℕ) (f : RawFile) (raw : RawTrack) (boxes : Boxes)
    (max_bytes offset : ℕ)
    → Holds e.pread offset []
    → offset ≤ e.size
    → max_bytes < 2 ^ 63
    → children_read
        (rounds_for boxes 1)
        e
        path
        (some i)
        max_bytes
        (with_raw f i raw)
        offset
        max_bytes
        false
      ≡ some (ok record { file = with_raw f i raw; count = max_bytes; offset = offset })
loop_over e path i f raw boxes max_bytes offset h whole small =
    let (m, some_left) = rounds_for-suc boxes 0 in
    let none_more : offset + 0 ≡ offset = omega arith in
    ap (λ k. children_read k e path (some i) max_bytes (with_raw f i raw) offset max_bytes false)
      some_left
    ∙ boxes_read e path i f raw [] m max_bytes offset max_bytes false tt h (omega (arith, whole))
        (omega arith) small
    ∙ ap (λ o. some (ok (record { file = with_raw f i raw; count = max_bytes; offset = o })))
        none_more

stbl_box_read :
    (front back : List ℕ) (path : List BoxType) (i : ℕ) (f : RawFile) (raw : RawTrack)
    (boxes : Boxes)
    → is_root path ≡ false
    → 0 < length (bytes_of boxes)
    → 8 + length (bytes_of boxes) < 2 ^ 32
    → ((file : List ℕ) → AllPass (plain_env file) (BoxType.stbl ∷ path) i f raw boxes)
    → children_read
        (suc (rounds_for boxes 1))
        (plain_env (front ++ (stbl_bytes boxes ++ back)))
        path
        (some i)
        (length (stbl_bytes boxes))
        (with_raw f i raw)
        (length front)
        0
        true
      ≡ some (
          ok record {
            file = with_raw f i (last_of raw boxes);
            count = length (stbl_bytes boxes);
            offset = length front + length (stbl_bytes boxes);
          })
stbl_box_read front back path i f raw boxes inner more small pass =
    let n = length (bytes_of boxes) in
    let head = words ((8 + n) ∷ type_stbl ∷ []) in
    let file = front ++ (stbl_bytes boxes ++ back) in
    let e = plain_env file in
    let total = length-stbl_bytes boxes in
    let long : length file ≡ length front + (8 + n + length back) = omega (
      arith,
      total,
      length-append front (stbl_bytes boxes ++ back),
      length-append (stbl_bytes boxes) back,
    ) in
    let h = file_pread-Holds front (stbl_bytes boxes) back in
    let start : length front + length head ≡ length front + 4 + 4 =
      omega (arith, length-words ((8 + n) ∷ type_stbl ∷ [])) in
    let inner_bytes =
      subst (λ o. Holds (file_pread file) o (bytes_of boxes)) start
        (Holds-right (file_pread file) (length front) head (bytes_of boxes) h) in
    let zero : 0 + (8 + n) ≡ 8 + n = omega arith in
    let there : length front + (8 + n) ≡ length front + length (stbl_bytes boxes) =
      omega (arith, total) in
    let behind =
      subst (λ o. Holds (file_pread file) o []) (sym there)
        (Holds-right (file_pread file) (length front) (stbl_bytes boxes) [] (
          subst (Holds (file_pread file) (length front)) (sym (append-nil (stbl_bytes boxes)))
            h)) in
    ap
      (λ m.
        children_read (suc (rounds_for boxes 1)) e path (some i) m (with_raw f i raw) (length front)
          0 true)
      total
    ∙ children_read-box (rounds_for boxes 1) e path (some i) (8 + n) (with_raw f i raw)
        (with_raw f i (last_of raw boxes)) (length front) 0 (8 + n) type_stbl true [] inner refl
        (omega arith) small (omega arith) (omega (arith, long)) (omega arith) (omega (arith, more))
        (omega (arith, small)) (Holds-left (file_pread file) (length front) head (bytes_of boxes) h)
        (stbl_body e path i f raw boxes (length front) (8 + n - 8) (omega arith) (pass file)
          inner_bytes (omega (arith, long)) (omega (arith, small)))
    ∙ ap
        (λ d.
          children_read (rounds_for boxes 1) e path (some i) (8 + n)
            (with_raw f i (last_of raw boxes)) (length front + (8 + n)) d false)
        zero
    ∙ loop_over e path i f (last_of raw boxes) boxes (8 + n) (length front + (8 + n)) behind
        (omega (arith, long)) (omega (arith, small))
    ∙ ap
        (λ k. some (
          ok record {
            file = with_raw f i (last_of raw boxes);
            count = k;
            offset = length front + k;
          }))
        (sym total)

module _ (t : MuxTrack) (raw : RawTrack) (f : RawFile) (i : ℕ) (path : List BoxType)
    (sd ws : List ℕ) (max_bytes : ℕ) (store : Storable t) (fresh : HasNoTables raw)
    (here : i < length f.tracks) (inner : is_root path ≡ false)
    (same : sd ≡ words (length sd ∷ 0x73747364 ∷ ws)) (more : 8 < length sd)
    (room : stbl_size t (length sd) ≤ max_bytes) (small : max_bytes < 2 ^ 32) where
  -- With room for the box and tables that the reader takes (see `Storable`), and with a box of the
  -- sample descriptions given, the sample table box of a track is written with its right size. In a
  -- file that holds it between other bytes, a reader that finds it in a box that is not the root,
  -- for a track without tables, reads it to its end, and the track has the five tables of the muxer.
  pub stbl_read-stbl_write :
      (front back : List ℕ)
      → (bytes : List ℕ) × (stbl_write max_bytes (λ m. ok sd) t ≡ ok bytes)
        × (length bytes ≡ stbl_size t (length sd))
        × (children_read 8
              (plain_env (front ++ (bytes ++ back)))
              path
              (some i)
              (length bytes)
              (with_raw f i raw)
              (length front)
              0
              true
            ≡ some (
                ok record {
                  file = with_raw f i (with_tables raw t);
                  count = length bytes;
                  offset = length front + length bytes;
                }))
  stbl_read-stbl_write front back =
      let (boxes, written, size, last, rounds, pass) =
        stbl_boxes t raw f i path sd ws max_bytes store fresh here same more room small in
      let total = length-stbl_bytes boxes in
      let file = front ++ (stbl_bytes boxes ++ back) in
      (
        stbl_bytes boxes,
        written,
        omega (arith, total, size),
        ap
              (λ k.
                children_read (suc k) (plain_env file) path (some i) (length (stbl_bytes boxes))
                  (with_raw f i raw) (length front) 0 true)
              (sym rounds)
            ∙ stbl_box_read front back path i f raw boxes inner (omega (arith, size, more))
                (omega (arith, size, room, small)) pass
            ∙ ap
                (λ u. some (
                  ok record {
                    file = with_raw f i u;
                    count = length (stbl_bytes boxes);
                    offset = length front + length (stbl_bytes boxes);
                  }))
                last,
      )
