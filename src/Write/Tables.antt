-- ===== src/Write/Tables.antt =====
-- src/mp4_box_writer.c: the writers of the six tables of a track (stts, stss, stsz, stsc, stco,
-- co64). `kind` is `box->type`; the muxer, the box and its argument are given.
use libmp.Types.{TimeToSampleEntry, SampleToChunkEntry}
use libmp.Prelude.{
  ℕ, List, Res, ◌/◌, ◌∷◌, [], ok, ◌^◌, ◌%◌, length, ◌+◌, ◌*◌, ◌>>=◌, Bool, if◌then◌else◌, false,
  ltb, ◌-◌, true,
}
use libmp.Mux.{MuxTrack}
use libmp.Write.{write_words, write_32, write_each, fix_size}

-- A table that has no entry is not written. `before` is the size of the box without its entries,
-- `width` that of an entry, and `head` the words between the type and the count.
unfoldable pub write_table {ℓ} :
    {A : Type ℓ} → ℕ → ℕ → ℕ → ℕ → List ℕ → (A → List ℕ) → List A → Res (List ℕ)
write_table max_bytes kind before width head enc [] = ok []
write_table max_bytes kind before width head enc (e ∷ es) =
    let count = length (e ∷ es) in
    let size = before + width * count % 2 ^ 32 in
    do
      out ← write_words max_bytes (size ∷ kind ∷ head) []
      out ← write_32 max_bytes count out
      out ← write_each max_bytes enc (e ∷ es) out
      ok (fix_size size out)

abbrev pub time_to_sample_words : TimeToSampleEntry → List ℕ
time_to_sample_words e = e.sample_count ∷ e.sample_delta ∷ []

abbrev pub sample_to_chunk_words : SampleToChunkEntry → List ℕ
sample_to_chunk_words e = e.first_chunk ∷ e.samples_per_chunk ∷ e.sample_description_index ∷ []

abbrev pub one_word : ℕ → List ℕ
one_word w = w ∷ []

abbrev pub two_words : ℕ → List ℕ
two_words v = v / 2 ^ 32 ∷ v % 2 ^ 32 ∷ []

-- `mp4_box_stts_write`
unfoldable pub stts_write : ℕ → ℕ → MuxTrack → Res (List ℕ)
stts_write max_bytes kind t =
    write_table max_bytes kind 16 8 (0 ∷ []) time_to_sample_words t.time_to_sample.entries

-- `mp4_box_stss_write`
unfoldable pub stss_write : ℕ → ℕ → MuxTrack → Res (List ℕ)
stss_write max_bytes kind t = write_table max_bytes kind 16 4 (0 ∷ []) one_word t.sync.entries

-- `mp4_box_stsz_write`
unfoldable pub stsz_write : ℕ → ℕ → MuxTrack → Res (List ℕ)
stsz_write max_bytes kind t =
    write_table max_bytes kind 20 4 (0 ∷ 0 ∷ []) (λ s. one_word s.size) t.samples.entries

-- `mp4_box_stsc_write`
unfoldable pub stsc_write : ℕ → ℕ → MuxTrack → Res (List ℕ)
stsc_write max_bytes kind t =
    write_table max_bytes kind 16 12 (0 ∷ []) sample_to_chunk_words t.sample_to_chunk.entries

-- `mp4_box_stco_write`
unfoldable pub stco_write : ℕ → ℕ → MuxTrack → Res (List ℕ)
stco_write max_bytes kind t = write_table max_bytes kind 16 4 (0 ∷ []) one_word t.chunks.entries

-- `mp4_box_co64_write`
unfoldable pub co64_write : ℕ → ℕ → MuxTrack → Res (List ℕ)
co64_write max_bytes kind t = write_table max_bytes kind 16 8 (0 ∷ []) two_words t.chunks.entries

-- The loop of `mp4_box_new_stco`: whether an offset is above UINT32_MAX
abbrev pub any_above : List ℕ → Bool
any_above [] = false
any_above (o ∷ os) = if ltb (2 ^ 32 - 1) o then true else any_above os

-- Whether `mp4_box_new_stco` makes the box a co64 one
unfoldable pub is_co64 : MuxTrack → Bool
is_co64 t = any_above t.chunks.entries

abbrev pub type_stco : ℕ
type_stco = 0x7374636f

abbrev pub type_co64 : ℕ
type_co64 = 0x636f3634

-- The writer that `mp4_box_new_stco` has given its box
unfoldable pub chunks_write : ℕ → MuxTrack → Res (List ℕ)
chunks_write max_bytes t =
    if is_co64 t then co64_write max_bytes type_co64 t else stco_write max_bytes type_stco t
