-- ===== src/Read/Entries.antt =====
-- src/mp4_box_reader.c: the readers of one entry find what the writers of src/mp4_box_writer.c put.
use libmp.Read.{advance, read_64, Cursor, read_32, read_each}
use libmp.Prelude.{
  List, ℕ, Res, All, ◌<◌, ◌^◌, ◌∷◌, ◌≡◌, ok, ◌+◌, arith, ◌∙◌, ap, ◌/◌, ◌%◌, bind-ok, [], length,
  refl, ◌*◌, sym,
}
use libmp.Read.Each.{Reads, read_32-word, advance-advance, flat, Holds-words, read_each-All}
use libmp.Read.Tables.{read_time_to_sample, read_sample_to_chunk}
use libmp.Read.Holds.{Holds}
use libmp.Bytes.{words}
use mathlib.Core.Path.{subst}
use libmp.Write.Tables.{one_word, two_words, sample_to_chunk_words, time_to_sample_words}
use libmp.Types.{SampleToChunkEntry, TimeToSampleEntry}

pub read_32-Reads :
    (pread : ℕ → ℕ → Res (List ℕ)) (w : ℕ) → w < 2 ^ 32 → Reads pread (read_32 pread) one_word w
read_32-Reads pread w small c ws h = (read_32-word pread c w ws small h).0

-- Two words, one after the other
two_words-found :
    (pread : ℕ → ℕ → Res (List ℕ)) (c : Cursor) (v w : ℕ) (ws : List ℕ)
    → v < 2 ^ 32
    → w < 2 ^ 32
    → Holds pread c.offset (words (v ∷ w ∷ ws))
    → (read_32 pread c ≡ ok (v, advance c 4))
      × (read_32 pread (advance c 4) ≡ ok (w, advance c 8))
      × Holds pread (advance c 8).offset (words ws)
unfolding advance
two_words-found pread c v w ws small_v small_w h =
    let (first, h1) = read_32-word pread c v (w ∷ ws) small_v h in
    let (second, h2) = read_32-word pread (advance c 4) w ws small_w h1 in
    let e : c.offset + 4 + 4 ≡ c.offset + 8 = omega arith in
    (
      first,
      second ∙ ap (λ d. ok (w, d)) (advance-advance c 4 4),
      subst (λ n. Holds pread n (words ws)) e h2,
    )

pub read_64-Reads :
    (pread : ℕ → ℕ → Res (List ℕ)) (v : ℕ) → v < 2 ^ 64 → Reads pread (read_64 pread) two_words v
unfolding read_64
read_64-Reads pread v small c ws h =
    let (hi, lo, _) =
      two_words-found pread c (v / 2 ^ 32) (v % 2 ^ 32) ws (omega arith) (omega arith) h in
    bind-ok _ hi ∙ bind-ok _ lo ∙ ap (λ n. ok (n, advance c 8)) (omega arith)

-- The fields of an entry fit 32 bits.
abbrev pub Fits : List ℕ → Type 0
Fits ws = All (λ w. w < 2 ^ 32) ws

pub read_time_to_sample-Reads :
    (pread : ℕ → ℕ → Res (List ℕ)) (e : TimeToSampleEntry)
    → Fits (time_to_sample_words e)
    → Reads pread (read_time_to_sample pread) time_to_sample_words e
unfolding read_time_to_sample
read_time_to_sample-Reads pread e small c ws h =
    let (count, delta, _) =
      two_words-found pread c e.sample_count e.sample_delta ws small.0 small.1.0 h in
    bind-ok _ count ∙ bind-ok _ delta

pub read_sample_to_chunk-Reads :
    (pread : ℕ → ℕ → Res (List ℕ)) (e : SampleToChunkEntry)
    → Fits (sample_to_chunk_words e)
    → Reads pread (read_sample_to_chunk pread) sample_to_chunk_words e
unfolding read_sample_to_chunk
read_sample_to_chunk-Reads pread e small c ws h =
    let (first, per, h2) =
      two_words-found pread c e.first_chunk e.samples_per_chunk (e.sample_description_index ∷ ws)
        small.0 small.1.0 h in
    let (index, _) =
      read_32-word pread (advance c 8) e.sample_description_index ws small.1.1.0 h2 in
    bind-ok _ first ∙ bind-ok _ per ∙ bind-ok _ index ∙ ap (λ d. ok (e, d)) (advance-advance c 8 4)

pub read_64-word :
    (pread : ℕ → ℕ → Res (List ℕ)) (c : Cursor) (v : ℕ) (ws : List ℕ)
    → v < 2 ^ 64
    → Holds pread c.offset (words (v / 2 ^ 32 ∷ v % 2 ^ 32 ∷ ws))
    → (read_64 pread c ≡ ok (v, advance c 8)) × Holds pread (c.offset + 8) (words ws)
read_64-word pread c v ws small h =
    (read_64-Reads pread v small c ws h, Holds-words pread c.offset (two_words v) ws h)

flat-one_word : (ws : List ℕ) → flat one_word ws ≡ ws
flat-one_word [] = refl
flat-one_word (w ∷ ws) = ap (λ l. w ∷ l) (flat-one_word ws)

words_each :
    (pread : ℕ → ℕ → Res (List ℕ)) (ws : List ℕ)
    → Fits ws
    → All (Reads pread (read_32 pread) one_word) ws
words_each pread [] h = tt
words_each pread (w ∷ ws) h = (read_32-Reads pread w h.0, words_each pread ws h.1)

-- Words that are read one after the other
pub read_each-words :
    (pread : ℕ → ℕ → Res (List ℕ)) (c : Cursor) (ws : List ℕ)
    → Fits ws
    → Holds pread c.offset (words ws)
    → read_each (read_32 pread) (length ws) c ≡ ok (ws, advance c (4 * length ws))
read_each-words pread c ws small h =
    let e = flat-one_word ws in
    read_each-All pread (read_32 pread) one_word ws c (words_each pread ws small)
      (subst (λ l. Holds pread c.offset (words l)) (sym e) h)
    ∙ ap (λ l. ok (ws, advance c (4 * length l))) e
