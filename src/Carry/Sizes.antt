-- ===== src/Carry/Sizes.antt =====
-- src/mp4_box_writer.c and src/mp4_box_reader.c together: the sizes of the samples.
use libmp.Read.Tables.{stsz_read, RawTrack, stsz_sizes, max_size, max_entry_count, is_none}
use libmp.Prelude.{
  List, ℕ, length, map, some, ◌∷◌, Res, ◌≤◌, [], ◌≡◌, length-map, ap, refl, true, ◌+◌, ◌*◌, ok, ◌%◌,
  ◌^◌, arith, guard-yes, eexist, ◌∙◌, guard-leb, einval, bind-ok, sym, ◌-◌, ◌<◌,
}
use libmp.Mux.{MuxTrack, MuxSample}
use libmp.Read.{advance, read_32}
use libmp.Read.Each.{
  flat, Holds-words, read_32-word, read_count-word, read_entries-All, advance-advance,
}
use libmp.Write.Exact.{table_words, write_table-fits}
use libmp.Write.Tables.{one_word, stsz_write, write_table}
use libmp.Read.Entries.{Fits, read_32-Reads}
use libmp.Read.Holds.{Holds}
use libmp.Bytes.{words, length-words}
use libmp.Carry.Tables.{inside, All-map, length-flat, IsCarried}
use mathlib.Core.Path.{subst}

abbrev pub sizes_of : MuxTrack → List ℕ
sizes_of t = map (λ s. s.size) t.samples.entries

flat-sizes :
    (ss : List MuxSample) → flat (λ s. one_word s.size) ss ≡ flat one_word (map (λ s. s.size) ss)
flat-sizes [] = refl
flat-sizes (s ∷ ss) = ap (λ ws. s.size ∷ ws) (flat-sizes ss)

sizes_words-eq :
    (kind : ℕ) (ss : List MuxSample)
    → table_words kind 20 4 (0 ∷ 0 ∷ []) (λ s. one_word s.size) ss
      ≡ table_words kind 20 4 (0 ∷ 0 ∷ []) one_word (map (λ s. s.size) ss)
sizes_words-eq kind ss =
    let some_words = flat (λ s. one_word s.size) ss in
    ap (λ n. (20 + 4 * n % 2 ^ 32) ∷ kind ∷ 0 ∷ 0 ∷ n ∷ some_words)
      (sym (length-map ss (λ s. s.size)))
    ∙ ap
        (λ ws.
          (20 + 4 * length (map (λ s. s.size) ss) % 2 ^ 32)
          ∷ kind
          ∷ 0
          ∷ 0
          ∷ length (map (λ s. s.size) ss)
          ∷ ws)
        (flat-sizes ss)

abbrev pub with_sizes : RawTrack → List ℕ → RawTrack
with_sizes raw es = record raw {
  sample_count = length es;
  sample_size = some es;
  sample_max_size = max_size raw.sample_max_size es;
}

stsz_read-all :
    (pread : ℕ → ℕ → Res (List ℕ)) (raw : RawTrack) (kind offset : ℕ) (es : List ℕ)
    → length es ≤ max_entry_count
    → Fits es
    → is_none raw.sample_size ≡ true
    → Holds pread offset (words (table_words kind 20 4 (0 ∷ 0 ∷ []) one_word es))
    → stsz_read pread true (12 + 4 * length es) raw (inside offset)
      ≡ ok (with_sizes raw es, advance (inside offset) (12 + 4 * length es))
unfolding stsz_read stsz_sizes advance
stsz_read-all pread raw kind offset es few small fresh h =
    let c = inside offset in
    let h0 =
      Holds-words pread offset ((20 + 4 * length es % 2 ^ 32) ∷ kind ∷ [])
        (0 ∷ 0 ∷ length es ∷ flat one_word es) h in
    let (head, h1) = read_32-word pread c 0 (0 ∷ length es ∷ flat one_word es) (omega arith) h0 in
    let (size, h2) =
      read_32-word pread (advance c 4) 0 (length es ∷ flat one_word es) (omega arith) h1 in
    let (count, h3) =
      read_32-word pread (advance (advance c 4) 4) (length es) (flat one_word es) (omega arith)
        h2 in
    let behind : offset + 8 + 4 + 4 + 4 ≡ offset + 8 + 12 = omega arith in
    guard-yes eexist _ fresh
    ∙ guard-leb 12 (12 + 4 * length es) einval _ (omega arith)
    ∙ bind-ok _ head
    ∙ bind-ok _ size
    ∙ bind-ok _ (read_count-word pread _ _ (length es) count few)
    ∙ bind-ok _ (
        read_entries-All pread (read_32 pread) one_word (12 + 4 * length es) 12 4 es _
          (All-map es (read_32-Reads pread) small)
          (omega (arith, length-flat one_word 1 es (λ a. refl))) refl (omega arith) h3)
    ∙ ap (λ d. ok (with_sizes raw es, d))
        (ap (λ o. advance (record { offset = o; count = 12 }) (12 + 4 * length es - 12)) behind
          ∙ advance-advance c 12 (12 + 4 * length es - 12)
          ∙ ap (advance c) (omega arith))

stsz_words-carried :
    (raw : RawTrack) (kind : ℕ) (ss : List MuxSample)
    → length ss ≤ max_entry_count
    → Fits (map (λ s. s.size) ss)
    → is_none raw.sample_size ≡ true
    → (pread : ℕ → ℕ → Res (List ℕ)) (offset : ℕ)
    → Holds pread offset (words (table_words kind 20 4 (0 ∷ 0 ∷ []) (λ s. one_word s.size) ss))
    → stsz_read pread true (12 + 4 * length ss) raw (inside offset)
      ≡ ok (with_sizes raw (map (λ s. s.size) ss), advance (inside offset) (12 + 4 * length ss))
stsz_words-carried raw kind ss few small fresh pread offset h =
    let es = map (λ s. s.size) ss in
    let n : length es ≡ length ss = length-map ss (λ s. s.size) in
    subst
      (λ k.
        stsz_read pread true (12 + 4 * k) raw (inside offset)
        ≡ ok (with_sizes raw es, advance (inside offset) (12 + 4 * k)))
      n
      (stsz_read-all pread raw kind offset es (omega (arith, n, few)) small fresh
        (subst (λ ws. Holds pread offset (words ws)) (sizes_words-eq kind ss) h))

stsz_table-IsCarried :
    (raw : RawTrack) (max_bytes kind : ℕ) (ss : List MuxSample)
    → 0 < length ss
    → length ss ≤ max_entry_count
    → Fits (map (λ s. s.size) ss)
    → 20 + 4 * length ss ≤ max_bytes
    → is_none raw.sample_size ≡ true
    → IsCarried
        (write_table max_bytes kind 20 4 (0 ∷ 0 ∷ []) (λ s. one_word s.size) ss)
        (12 + 4 * length ss)
        (λ pread body c. stsz_read pread true body raw c)
        (with_sizes raw (map (λ s. s.size) ss))
stsz_table-IsCarried raw max_bytes kind [] any few small fits fresh = absurd (omega arith)
stsz_table-IsCarried raw max_bytes kind (s ∷ ss) any few small fits fresh =
    let enc : MuxSample → List ℕ = λ s. one_word s.size in
    let ws = table_words kind 20 4 (0 ∷ 0 ∷ []) enc (s ∷ ss) in
    let wide = length-flat enc 1 (s ∷ ss) (λ a. refl) in
    (
      words ws,
      write_table-fits max_bytes kind 20 4 (0 ∷ 0 ∷ []) enc s ss (omega (arith, wide)) refl
          (omega arith) fits,
      omega (arith, wide, length-words ws),
      stsz_words-carried raw kind (s ∷ ss) few small fresh,
    )

-- The sizes of the samples: with room for the box, they come back, and the largest one with them.
pub stsz_write-IsCarried :
    (t : MuxTrack) (raw : RawTrack) (max_bytes kind : ℕ)
    → 0 < length t.samples.entries
    → length t.samples.entries ≤ max_entry_count
    → Fits (sizes_of t)
    → 20 + 4 * length t.samples.entries ≤ max_bytes
    → is_none raw.sample_size ≡ true
    → IsCarried
        (stsz_write max_bytes kind t)
        (12 + 4 * length t.samples.entries)
        (λ pread body c. stsz_read pread true body raw c)
        (with_sizes raw (sizes_of t))
unfolding stsz_write
stsz_write-IsCarried t raw max_bytes kind any few small fits fresh =
    stsz_table-IsCarried raw max_bytes kind t.samples.entries any few small fits fresh
