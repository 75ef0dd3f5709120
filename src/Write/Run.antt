-- ===== src/Write/Run.antt =====
-- src/mp4_box_writer.c: the bytes that a run of values leaves, and when it has the room.
use libmp.Prelude.{
  List, ℕ, ◌<◌, length, ◌∷◌, ◌≤◌, ◌≡◌, ◌++◌, ◌+◌, ◌*◌, [], err, ok, enospc, guard-leb, ap, sym,
  arith, ◌>>=◌, length-append, bind-ok, ◌∙◌,
}
use libmp.Write.{write_box, write_run, write_bytes, fix_size}
use libmp.Bytes.{words, be_32, length-be_32, length-words}
use native.Mathlib.Decide.{dec_le}
use mathlib.Core.List.{append-nil, append_assoc}
use libmp.Write.Exact.{fix_size-same}

abbrev pub join : List (List ℕ) → List ℕ
join [] = []
join (bytes ∷ run) = bytes ++ join run

write_bytes-fits :
    (max_bytes : ℕ) (bytes out : List ℕ)
    → length out + length bytes ≤ max_bytes
    → write_bytes max_bytes bytes out ≡ ok (out ++ bytes)
unfolding write_bytes
write_bytes-fits max_bytes bytes out h = guard-leb (length out + length bytes) max_bytes enospc _ h

write_bytes-full :
    (max_bytes : ℕ) (bytes out : List ℕ)
    → max_bytes < length out + length bytes
    → write_bytes max_bytes bytes out ≡ err enospc
unfolding write_bytes
write_bytes-full max_bytes bytes out h = ground arith

pub write_run-fits :
    (max_bytes : ℕ) (run : List (List ℕ)) (out : List ℕ)
    → length out + length (join run) ≤ max_bytes
    → write_run max_bytes run out ≡ ok (out ++ join run)
unfolding write_run
write_run-fits max_bytes [] out h = ap ok (sym (append-nil out))
write_run-fits max_bytes (bytes ∷ run) out h =
    bind-ok _ (write_bytes-fits max_bytes bytes out (omega (arith, length-append bytes (join run))))
    ∙ write_run-fits max_bytes run (out ++ bytes)
        (omega (arith, length-append out bytes, length-append bytes (join run)))
    ∙ ap ok (append_assoc out bytes (join run))

write_run-full :
    (max_bytes : ℕ) (run : List (List ℕ)) (out : List ℕ)
    → length out ≤ max_bytes
    → max_bytes < length out + length (join run)
    → write_run max_bytes run out ≡ err enospc
unfolding write_run
write_run-full max_bytes [] out h full = absurd (omega arith)
write_run-full max_bytes (bytes ∷ run) out h full =
    elim (dec_le (length out + length bytes) max_bytes) [
      | yes fits ↦
          bind-ok _ (write_bytes-fits max_bytes bytes out fits)
          ∙ write_run-full max_bytes run (out ++ bytes) (omega (arith, length-append out bytes))
              (omega (arith, length-append out bytes, length-append bytes (join run)))
      | no over ↦
          ap (λ r. r >>= write_run max_bytes run)
            (write_bytes-full max_bytes bytes out (omega arith))
    ]

-- A box with the size that it says is written where it fits.
pub write_box-fits :
    (max_bytes size kind : ℕ) (run : List (List ℕ)) (ws : List ℕ)
    → join run ≡ words ws
    → size ≡ 8 + 4 * length ws
    → size ≤ max_bytes
    → write_box max_bytes size kind run ≡ ok (words (size ∷ kind ∷ ws))
unfolding write_box words fix_size
write_box-fits max_bytes size kind run ws same sized fits =
    let k : length (join (be_32 size ∷ be_32 kind ∷ run)) ≡ size = omega (
      arith,
      length-append (be_32 size) (be_32 kind ++ join run),
      sized,
      length-append (be_32 kind) (join run),
      length-be_32 size,
      length-be_32 kind,
      ap length same,
      length-words ws,
    ) in
    bind-ok _ (write_run-fits max_bytes (be_32 size ∷ be_32 kind ∷ run) [] (omega (arith, k, fits)))
    ∙ ap ok (fix_size-same size (join (be_32 size ∷ be_32 kind ∷ run)) (sym k))
    ∙ ap (λ bytes. ok (be_32 size ++ (be_32 kind ++ bytes))) same

-- Where it does not fit, it ends in the error.
pub write_box-full :
    (max_bytes size kind : ℕ) (run : List (List ℕ))
    → max_bytes < 8 + length (join run)
    → write_box max_bytes size kind run ≡ err enospc
unfolding write_box
write_box-full max_bytes size kind run full =
    ap (λ r. r >>= λ out. ok (fix_size size out))
      (write_run-full max_bytes (be_32 size ∷ be_32 kind ∷ run) [] (omega arith) (
        omega (
          arith,
          length-append (be_32 size) (be_32 kind ++ join run),
          full,
          length-append (be_32 kind) (join run),
          length-be_32 size,
          length-be_32 kind,
        )))
