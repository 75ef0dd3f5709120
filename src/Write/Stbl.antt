-- ===== src/Write/Stbl.antt =====
-- src/mp4_mux.c: the part of `mp4_mux_sync_internal` that makes the sample table box of a track, and
-- src/mp4_box_writer.c, which writes it.
use libmp.Write.Headers.{container_write, container_loop, Writer}
use libmp.Write.Tables.{
  stts_write, chunks_write, co64_write, stss_write, stsc_write, stco_write, is_co64, stsz_write,
  type_co64, time_to_sample_words, type_stco, two_words, one_word, sample_to_chunk_words,
}
use libmp.Prelude.{
  ℕ, Bool, List, Res, some, All, none, if◌then◌else◌, length, ◌∷◌, true, ◌≤◌, [], false, ok_eq,
  arith, ok, >>=-eq-ok, ◌-◌, length-append, ◌++◌, ◌≡◌,
}
use libmp.Mux.{MuxTrack}
use libmp.Write.Bounds.{Within, >>=-Within, write_table-Within, write_words-Within, fix_size-Within}
use libmp.Write.{write_words, fix_size}

abbrev pub type_stbl : ℕ
type_stbl = 0x7374626c

-- The boxes in the order in which they are made; the writer of stsd is given.
unfoldable pub stbl_write : ℕ → (ℕ → Res (List ℕ)) → MuxTrack → Res (List ℕ)
stbl_write max_bytes stsd t = container_write max_bytes type_stbl (
    some stsd
    ∷ some (λ m. stts_write m 0x73747473 t)
    ∷ some (λ m. stss_write m 0x73747373 t)
    ∷ some (λ m. stsc_write m 0x73747363 t)
    ∷ some (λ m. stsz_write m 0x7374737a t)
    ∷ some (λ m. chunks_write m t)
    ∷ [])

-- A child that keeps to what is left of the buffer
abbrev pub KeepsTo : Writer → Type 0
KeepsTo none = Unit
KeepsTo (some write) = (m : ℕ) → Within (write m) 0 m

container_loop-Within :
    (max_bytes : ℕ) (children : List Writer) (out : List ℕ)
    → All KeepsTo children
    → length out ≤ max_bytes
    → Within (container_loop max_bytes children out) (length out) max_bytes
unfolding container_loop
container_loop-Within max_bytes [] out keep h bytes eq =
    let q = ok_eq eq in rw (← q) (omega arith, h)
container_loop-Within max_bytes (none ∷ children) out keep h bytes eq =
    container_loop-Within max_bytes children out keep.1 h bytes eq
container_loop-Within max_bytes (some write ∷ children) out keep h bytes eq =
    let (child, p, q) = >>=-eq-ok (write (max_bytes - length out)) _ eq in
    let (_, high) = keep.0 (max_bytes - length out) child p in
    let both = length-append out child in
    let (least, most) =
      container_loop-Within max_bytes children (out ++ child) keep.1 (omega (arith, both, high, h))
        bytes q in
    (omega (arith, least, both), most)

container_write-Within :
    (max_bytes kind : ℕ) (children : List Writer)
    → All KeepsTo children
    → Within (container_write max_bytes kind children) 0 max_bytes
unfolding container_write
container_write-Within max_bytes kind children keep =
    >>=-Within (write_words max_bytes (0 ∷ kind ∷ []) []) _ 0 8 max_bytes
      (λ bytes eq. write_words-Within max_bytes (0 ∷ kind ∷ []) [] (omega arith) bytes eq)
      λ out low high.
        >>=-Within (container_loop max_bytes children out) (λ out. ok (fix_size 0 out)) 0 8
          max_bytes
          (λ bytes eq.
            let (least, most) = container_loop-Within max_bytes children out keep high bytes eq in
            (omega (arith, least, low), most))
          λ last a b. fix_size-Within 0 0 max_bytes last (omega (arith, a)) (omega arith) b

if-Within :
    (m : ℕ) (b : Bool) (x y : Res (List ℕ))
    → Within x 0 m
    → Within y 0 m
    → Within (if b then x else y) 0 m
if-Within m true x y p q = p
if-Within m false x y p q = q

chunks_write-Within : (t : MuxTrack) (m : ℕ) → Within (chunks_write m t) 0 m
unfolding chunks_write co64_write stco_write
chunks_write-Within t m =
    if-Within m (is_co64 t) (co64_write m type_co64 t) (stco_write m type_stco t)
      (write_table-Within m type_co64 16 8 (0 ∷ []) two_words t.chunks.entries)
      (write_table-Within m type_stco 16 4 (0 ∷ []) one_word t.chunks.entries)

stbl_write-Within :
    (max_bytes : ℕ) (stsd : ℕ → Res (List ℕ)) (t : MuxTrack)
    → ((m : ℕ) → Within (stsd m) 0 m)
    → Within (stbl_write max_bytes stsd t) 0 max_bytes
unfolding stbl_write stts_write stss_write stsc_write stsz_write
stbl_write-Within max_bytes stsd t keep =
    let stts : KeepsTo (some (λ m. stts_write m 0x73747473 t)) =
      λ m. write_table-Within m _ 16 8 (0 ∷ []) time_to_sample_words t.time_to_sample.entries in
    let stss : KeepsTo (some (λ m. stss_write m 0x73747373 t)) =
      λ m. write_table-Within m _ 16 4 (0 ∷ []) one_word t.sync.entries in
    let stsc : KeepsTo (some (λ m. stsc_write m 0x73747363 t)) =
      λ m. write_table-Within m _ 16 12 (0 ∷ []) sample_to_chunk_words t.sample_to_chunk.entries in
    let stsz : KeepsTo (some (λ m. stsz_write m 0x7374737a t)) =
      λ m. write_table-Within m _ 20 4 (0 ∷ 0 ∷ []) (λ s. one_word s.size) t.samples.entries in
    container_write-Within max_bytes type_stbl _
      (keep, (stts, (stss, (stsc, (stsz, (chunks_write-Within t, tt))))))

-- Whatever the tables hold, a sample table box that is written takes no more than the room that it
-- is given, if the box of the sample descriptions takes no more than what is left for it.
pub stbl_write-bounded :
    (max_bytes : ℕ) (stsd : ℕ → Res (List ℕ)) (t : MuxTrack) (bytes : List ℕ)
    → ((m : ℕ) (child : List ℕ) → stsd m ≡ ok child → length child ≤ m)
    → stbl_write max_bytes stsd t ≡ ok bytes
    → length bytes ≤ max_bytes
stbl_write-bounded max_bytes stsd t bytes keep e =
    (stbl_write-Within max_bytes stsd t (λ m child eq. (omega arith, keep m child eq)) bytes e).1
