-- ===== src/Carry/Stbl.antt =====
-- src/mp4_box_writer.c and src/mp4_box_reader.c together: the sample table box of a track, with the
-- tables in it.
use libmp.Mux.{MuxTrack, MuxSample}
use libmp.Prelude.{
  ◌<◌, List, ℕ, length, ◌≤◌, All, ◌≡◌, false, ◌^◌, true, ◌+◌, ◌*◌, some, ◌∷◌, [], arith, refl, Bool,
  if◌then◌else◌,
}
use libmp.Read.Handler.{BoxType, box_type}
use libmp.Read.Headers.{RawFile}
use libmp.Read.Tables.{
  max_entry_count, RawTrack, is_none, stsc_read, stco_read, co64_read, stsz_read, stts_read,
  stss_read,
}
use libmp.Read.Children.{is_root, body}
use libmp.Read.Entries.{Fits}
use libmp.Write.Tables.{
  time_to_sample_words, sample_to_chunk_words, stsz_write, co64_write, stsc_write, stts_write,
  stss_write, stco_write, type_co64, type_stco, one_word, two_words, is_co64, chunks_write,
}
use libmp.Carry.Sizes.{sizes_of, with_sizes, stsz_write-IsCarried}
use libmp.Carry.Passes.{WritesPast, table_passes}
use libmp.Carry.Chunks.{
  with_chunks, co64_write-IsCarried, stco_write-IsCarried, chunk_bytes, any_above-none,
}
use libmp.Carry.Tables.{
  length-flat, stts_write-IsCarried, stss_write-IsCarried, stsc_write-IsCarried,
}

-- Tables that the reader takes: not empty, at most MAX_ENTRY_COUNT entries, fields that fit
pub record Storable (t : MuxTrack) : Type 0 where
  pub any_times : 0 < length t.time_to_sample.entries
  pub few_times : length t.time_to_sample.entries ≤ max_entry_count
  pub small_times : All (λ e. Fits (time_to_sample_words e)) t.time_to_sample.entries
  pub any_syncs : 0 < length t.sync.entries
  pub few_syncs : length t.sync.entries ≤ max_entry_count
  pub small_syncs : Fits t.sync.entries
  pub any_chunks : 0 < length t.sample_to_chunk.entries
  pub few_chunks : length t.sample_to_chunk.entries ≤ max_entry_count
  pub small_chunks : All (λ e. Fits (sample_to_chunk_words e)) t.sample_to_chunk.entries
  pub any_samples : 0 < length t.samples.entries
  pub few_samples : length t.samples.entries ≤ max_entry_count
  pub small_samples : Fits (sizes_of t)
  pub any_offsets : 0 < length t.chunks.entries
  pub few_offsets : length t.chunks.entries ≤ max_entry_count
  pub small_offsets : All (λ o. o < 2 ^ 64) t.chunks.entries

module _ (t : MuxTrack) (store : Storable t) (path : List BoxType) (i : ℕ) (f : RawFile)
    (inner : is_root path ≡ false) (here : i < length f.tracks) where
  pub stts_passes :
      (raw : RawTrack) (m : ℕ)
      → is_none raw.time_to_sample_entries ≡ true
      → 16 + 8 * length t.time_to_sample.entries ≤ m
      → WritesPast path i f raw
          (record raw { time_to_sample_entries = some t.time_to_sample.entries })
          (stts_write m 0x73747473 t)
          (8 + (8 + 8 * length t.time_to_sample.entries))
  unfolding stts_write body box_type
  stts_passes raw m fresh room =
      let few = store.few_times in
      let wide = length-flat time_to_sample_words 2 t.time_to_sample.entries (λ a. refl) in
      table_passes path i f raw _ m 0x73747473 16 8 (8 + 8 * length t.time_to_sample.entries)
        (0 ∷ []) time_to_sample_words t.time_to_sample.entries
        (λ pread n u c. stts_read pread true n u c) store.any_times inner here (omega arith)
        (omega arith) (omega (arith, few)) (omega arith) (omega (arith, wide)) refl
        (omega (arith, room))
        (stts_write-IsCarried t raw m 0x73747473 store.any_times few store.small_times room fresh)
        (λ file down g c. refl)

  pub stss_passes :
      (raw : RawTrack) (m : ℕ)
      → is_none raw.sync_sample_entries ≡ true
      → 16 + 4 * length t.sync.entries ≤ m
      → WritesPast path i f raw
          (record raw {
            sync_sample_entry_count = length t.sync.entries;
            sync_sample_entries = some t.sync.entries;
          })
          (stss_write m 0x73747373 t)
          (8 + (8 + 4 * length t.sync.entries))
  unfolding stss_write body box_type
  stss_passes raw m fresh room =
      let few = store.few_syncs in
      let wide = length-flat one_word 1 t.sync.entries (λ a. refl) in
      table_passes path i f raw _ m 0x73747373 16 4 (8 + 4 * length t.sync.entries) (0 ∷ [])
        one_word t.sync.entries (λ pread n u c. stss_read pread true n u c) store.any_syncs inner
        here (omega arith) (omega arith) (omega (arith, few)) (omega arith) (omega (arith, wide))
        refl (omega (arith, room))
        (stss_write-IsCarried t raw m 0x73747373 store.any_syncs few store.small_syncs room fresh)
        (λ file down g c. refl)

  pub stsc_passes :
      (raw : RawTrack) (m : ℕ)
      → is_none raw.sample_to_chunk_entries ≡ true
      → 16 + 12 * length t.sample_to_chunk.entries ≤ m
      → WritesPast path i f raw
          (record raw { sample_to_chunk_entries = some t.sample_to_chunk.entries })
          (stsc_write m 0x73747363 t)
          (8 + (8 + 12 * length t.sample_to_chunk.entries))
  unfolding stsc_write body box_type
  stsc_passes raw m fresh room =
      let few = store.few_chunks in
      let wide = length-flat sample_to_chunk_words 3 t.sample_to_chunk.entries (λ a. refl) in
      table_passes path i f raw _ m 0x73747363 16 12 (8 + 12 * length t.sample_to_chunk.entries)
        (0 ∷ []) sample_to_chunk_words t.sample_to_chunk.entries
        (λ pread n u c. stsc_read pread true n u c) store.any_chunks inner here (omega arith)
        (omega arith) (omega (arith, few)) (omega arith) (omega (arith, wide)) refl
        (omega (arith, room))
        (stsc_write-IsCarried t raw m 0x73747363 store.any_chunks few store.small_chunks room fresh)
        (λ file down g c. refl)

  pub stsz_passes :
      (raw : RawTrack) (m : ℕ)
      → is_none raw.sample_size ≡ true
      → 20 + 4 * length t.samples.entries ≤ m
      → WritesPast path i f raw
          (with_sizes raw (sizes_of t))
          (stsz_write m 0x7374737a t)
          (8 + (12 + 4 * length t.samples.entries))
  unfolding stsz_write body box_type
  stsz_passes raw m fresh room =
      let few = store.few_samples in
      let enc : MuxSample → List ℕ = λ s. one_word s.size in
      let wide = length-flat enc 1 t.samples.entries (λ a. refl) in
      table_passes path i f raw _ m 0x7374737a 20 4 (12 + 4 * length t.samples.entries) (0 ∷ 0 ∷ [])
        enc t.samples.entries (λ pread n u c. stsz_read pread true n u c) store.any_samples inner
        here (omega arith) (omega arith) (omega (arith, few)) (omega arith) (omega (arith, wide))
        refl (omega (arith, room))
        (stsz_write-IsCarried t raw m 0x7374737a store.any_samples few store.small_samples room
          fresh)
        (λ file down g c. refl)

  stco_passes :
      (raw : RawTrack) (m : ℕ)
      → Fits t.chunks.entries
      → is_none raw.chunk_offset ≡ true
      → 16 + 4 * length t.chunks.entries ≤ m
      → WritesPast path i f raw
          (with_chunks t raw m)
          (stco_write m type_stco t)
          (8 + (8 + 4 * length t.chunks.entries))
  unfolding stco_write body box_type
  stco_passes raw m small fresh room =
      let few = store.few_offsets in
      let wide = length-flat one_word 1 t.chunks.entries (λ a. refl) in
      table_passes path i f raw _ m type_stco 16 4 (8 + 4 * length t.chunks.entries) (0 ∷ [])
        one_word t.chunks.entries (λ pread n u c. stco_read pread true n u c) store.any_offsets
        inner here (omega arith) (omega arith) (omega (arith, few)) (omega arith)
        (omega (arith, wide)) refl (omega (arith, room))
        (stco_write-IsCarried t raw m store.any_offsets few small room fresh)
        (λ file down g c. refl)

  co64_passes :
      (raw : RawTrack) (m : ℕ)
      → is_none raw.chunk_offset ≡ true
      → 16 + 8 * length t.chunks.entries ≤ m
      → WritesPast path i f raw
          (with_chunks t raw m)
          (co64_write m type_co64 t)
          (8 + (8 + 8 * length t.chunks.entries))
  unfolding co64_write body box_type
  co64_passes raw m fresh room =
      let few = store.few_offsets in
      let wide = length-flat two_words 2 t.chunks.entries (λ a. refl) in
      table_passes path i f raw _ m type_co64 16 8 (8 + 8 * length t.chunks.entries) (0 ∷ [])
        two_words t.chunks.entries (λ pread n u c. co64_read pread true n u c) store.any_offsets
        inner here (omega arith) (omega arith) (omega (arith, few)) (omega arith)
        (omega (arith, wide)) refl (omega (arith, room))
        (co64_write-IsCarried t raw m store.any_offsets few store.small_offsets room fresh)
        (λ file down g c. refl)

  either_passes :
      (b : Bool) (raw : RawTrack) (m : ℕ)
      → is_co64 t ≡ b
      → is_none raw.chunk_offset ≡ true
      → 16 + (if b then 8 else 4) * length t.chunks.entries ≤ m
      → WritesPast path i f raw
          (with_chunks t raw m)
          (if b then co64_write m type_co64 t else stco_write m type_stco t)
          (8 + (8 + (if b then 8 else 4) * length t.chunks.entries))
  unfolding is_co64
  either_passes true raw m e fresh room = co64_passes raw m fresh room
  either_passes false raw m e fresh room =
      stco_passes raw m (any_above-none t.chunks.entries e) fresh room

  pub chunks_passes :
      (raw : RawTrack) (m : ℕ)
      → is_none raw.chunk_offset ≡ true
      → 16 + chunk_bytes t * length t.chunks.entries ≤ m
      → WritesPast path i f raw
          (with_chunks t raw m)
          (chunks_write m t)
          (8 + (8 + chunk_bytes t * length t.chunks.entries))
  unfolding chunks_write
  chunks_passes raw m fresh room = either_passes (is_co64 t) raw m refl fresh room
