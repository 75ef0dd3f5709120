-- ===== src/Carry/Whole.antt =====
-- src/mp4_mux.c, src/mp4_box_writer.c and src/mp4_box_reader.c together: the sample table box of a
-- track, written into a file and read from it.
use libmp.Read.Children.{body, is_root}
use libmp.Read.Tables.{RawTrack, is_none, max_size}
use libmp.Mux.{MuxTrack}
use libmp.Prelude.{
  ℕ, some, ◌+◌, List, length, ◌≡◌, true, ◌*◌, false, ◌<◌, ◌∷◌, ◌^◌, ◌≤◌, ok, arith, [], ◌++◌, refl,
  length-append, ◌-◌, ◌∙◌,
}
use libmp.Read.Handler.{box_type, BoxType}
use libmp.Read.Headers.{RawFile}
use libmp.Carry.Sizes.{sizes_of, with_sizes}
use libmp.Carry.Chunks.{chunk_bytes, with_chunks}
use libmp.Carry.Stbl.{Storable, stts_passes, stss_passes, stsc_passes, stsz_passes, chunks_passes}
use libmp.Bytes.{words, length-words}
use libmp.Write.Stbl.{stbl_write, type_stbl}
use libmp.Carry.Passes.{Passes, plain_env, with_raw}
use libmp.Carry.Chain.{Boxes, bytes_of, last_of, rounds_for, AllPass, container_write-AllWritten}
use libmp.Read.Children.Passed.{children_read-box}
use mathlib.Core.Path.{subst}
use libmp.Read.Holds.{Holds, file_pread}

-- A track that has read no table
pub record HasNoTables (raw : RawTrack) : Type 0 where
  pub times : is_none raw.time_to_sample_entries ≡ true
  pub syncs : is_none raw.sync_sample_entries ≡ true
  pub chunks : is_none raw.sample_to_chunk_entries ≡ true
  pub sizes : is_none raw.sample_size ≡ true
  pub offsets : is_none raw.chunk_offset ≡ true

-- The track with the tables of a muxed one
abbrev pub with_tables : RawTrack → MuxTrack → RawTrack
with_tables raw t = record raw {
  time_to_sample_entries = some t.time_to_sample.entries;
  sync_sample_entry_count = length t.sync.entries;
  sync_sample_entries = some t.sync.entries;
  sample_to_chunk_entries = some t.sample_to_chunk.entries;
  sample_count = length (sizes_of t);
  sample_size = some (sizes_of t);
  sample_max_size = max_size raw.sample_max_size (sizes_of t);
  chunk_count = length t.chunks.entries;
  chunk_offset = some t.chunks.entries;
}

-- The lengths of the boxes of the tables, and of the whole box with `n` bytes of sample descriptions
abbrev pub tables_size : MuxTrack → ℕ
tables_size t =
    16
    + 8 * length t.time_to_sample.entries
    + (16 + 4 * length t.sync.entries)
    + (16 + 12 * length t.sample_to_chunk.entries)
    + (20 + 4 * length t.samples.entries)
    + (16 + chunk_bytes t * length t.chunks.entries)

abbrev pub stbl_size : MuxTrack → ℕ → ℕ
stbl_size t n = 8 + n + tables_size t

-- The box of the sample descriptions is passed, and leaves the track as it is.
stsd-Passes :
    (path : List BoxType) (i : ℕ) (f : RawFile) (raw : RawTrack) (file sd ws : List ℕ)
    → is_root path ≡ false
    → sd ≡ words (length sd ∷ 0x73747364 ∷ ws)
    → 8 < length sd
    → length sd < 2 ^ 32
    → Passes (plain_env file) path i f raw raw sd
unfolding body box_type
stsd-Passes path i f raw file sd ws inner same more small fuel max_bytes offset done first h whole
      fits far =
    children_read-box fuel (plain_env file) path (some i) max_bytes (with_raw f i raw)
      (with_raw f i raw) offset done (length sd) 0x73747364 first ws inner refl (omega arith) small
      (omega arith) whole fits (omega (arith, more, fits)) far
      (subst (Holds (file_pread file) offset) same h) refl

fits_behind :
    (out : List ℕ) (used next max_bytes : ℕ)
    → length out ≡ used
    → used + next ≤ max_bytes
    → next ≤ max_bytes - length out
fits_behind out used next max_bytes e h = omega (arith, e, h)

length-behind :
    (out box : List ℕ) (used size : ℕ)
    → length out ≡ used
    → length box ≡ size
    → length (out ++ box) ≡ used + size
length-behind out box used size e s = omega (arith, e, s, length-append out box)

-- The rooms that the whole leaves for its parts
parts_fit :
    (n a b c d e max_bytes : ℕ)
    → 8 + n + (a + b + c + d + e) ≤ max_bytes
    → (8 + n + a ≤ max_bytes)
      × (8 + n + a + b ≤ max_bytes)
      × (8 + n + a + b + c ≤ max_bytes)
      × (8 + n + a + b + c + d ≤ max_bytes)
      × (8 + n + a + b + c + d + e ≤ max_bytes)
parts_fit n a b c d e max_bytes h =
    (omega arith, omega arith, omega arith, omega arith, omega arith)

sixteen : (x : ℕ) → 8 + (8 + x) ≡ 16 + x
sixteen x = omega arith

twenty : (x : ℕ) → 8 + (12 + x) ≡ 20 + x
twenty x = omega arith

part_small : (n a max_bytes : ℕ) → 8 + n + a ≤ max_bytes → max_bytes < 2 ^ 32 → n < 2 ^ 32
part_small n a max_bytes h small = omega arith

head_fits : (n a max_bytes : ℕ) → 8 + n + a ≤ max_bytes → 0 + 4 * 2 ≤ max_bytes
head_fits n a max_bytes h = omega arith

length-six :
    (b0 b1 b2 b3 b4 b5 : List ℕ) (a b c d e : ℕ)
    → length b1 ≡ a
    → length b2 ≡ b
    → length b3 ≡ c
    → length b4 ≡ d
    → length b5 ≡ e
    → length (b0 ++ (b1 ++ (b2 ++ (b3 ++ (b4 ++ (b5 ++ [])))))) ≡ length b0 + (a + b + c + d + e)
length-six b0 b1 b2 b3 b4 b5 a b c d e p q r s u = omega (
  arith,
  p,
  q,
  r,
  s,
  u,
  length-append b0 (b1 ++ (b2 ++ (b3 ++ (b4 ++ (b5 ++ []))))),
  length-append b1 (b2 ++ (b3 ++ (b4 ++ (b5 ++ [])))),
  length-append b2 (b3 ++ (b4 ++ (b5 ++ []))),
  length-append b3 (b4 ++ (b5 ++ [])),
  length-append b4 (b5 ++ []),
  length-append b5 [],
)

module _ (t : MuxTrack) (raw : RawTrack) (f : RawFile) (i : ℕ) (path : List BoxType)
    (sd ws : List ℕ) (max_bytes : ℕ) (store : Storable t) (fresh : HasNoTables raw)
    (here : i < length f.tracks) (same : sd ≡ words (length sd ∷ 0x73747364 ∷ ws))
    (more : 8 < length sd) (room : stbl_size t (length sd) ≤ max_bytes)
    (small : max_bytes < 2 ^ 32) where
  -- The boxes are written in what is left of the buffer, and passed.
  pub stbl_boxes :
      (boxes : Boxes) × (stbl_write max_bytes (λ m. ok sd) t
        ≡ ok (words ((8 + length (bytes_of boxes)) ∷ type_stbl ∷ []) ++ bytes_of boxes))
      × (length (bytes_of boxes) ≡ length sd + tables_size t)
      × (last_of raw boxes ≡ with_tables raw t)
      × (rounds_for boxes 1 ≡ 7)
      × ((file : List ℕ) → AllPass (plain_env file) (BoxType.stbl ∷ path) i f raw boxes)
  unfolding stbl_write
  stbl_boxes =
      let n = length sd in
      let a = 16 + 8 * length t.time_to_sample.entries in
      let b = 16 + 4 * length t.sync.entries in
      let c = 16 + 12 * length t.sample_to_chunk.entries in
      let d = 20 + 4 * length t.samples.entries in
      let e = 16 + chunk_bytes t * length t.chunks.entries in
      let path' = BoxType.stbl ∷ path in
      let (r1, r2, r3, r4, r5) = parts_fit n a b c d e max_bytes room in
      let out0 = words (0 ∷ type_stbl ∷ []) in
      let out1 = out0 ++ sd in
      let l1 : length out1 ≡ 8 + n =
        length-behind out0 sd 8 n (length-words (0 ∷ type_stbl ∷ [])) refl in
      let raw1 : RawTrack = record raw { time_to_sample_entries = some t.time_to_sample.entries } in
      let (b1, w1, s1, p1) =
        stts_passes t store path' i f refl here raw (max_bytes - length out1) fresh.times
          (fits_behind out1 (8 + n) a max_bytes l1 r1) in
      let out2 = out1 ++ b1 in
      let l2 = length-behind out1 b1 (8 + n) a l1 (s1 ∙ sixteen _) in
      let raw2 : RawTrack = record raw1 {
        sync_sample_entry_count = length t.sync.entries;
        sync_sample_entries = some t.sync.entries;
      } in
      let (b2, w2, s2, p2) =
        stss_passes t store path' i f refl here raw1 (max_bytes - length out2) fresh.syncs
          (fits_behind out2 (8 + n + a) b max_bytes l2 r2) in
      let out3 = out2 ++ b2 in
      let l3 = length-behind out2 b2 (8 + n + a) b l2 (s2 ∙ sixteen _) in
      let raw3 : RawTrack = record raw2 {
        sample_to_chunk_entries = some t.sample_to_chunk.entries;
      } in
      let (b3, w3, s3, p3) =
        stsc_passes t store path' i f refl here raw2 (max_bytes - length out3) fresh.chunks
          (fits_behind out3 (8 + n + a + b) c max_bytes l3 r3) in
      let out4 = out3 ++ b3 in
      let l4 = length-behind out3 b3 (8 + n + a + b) c l3 (s3 ∙ sixteen _) in
      let raw4 = with_sizes raw3 (sizes_of t) in
      let (b4, w4, s4, p4) =
        stsz_passes t store path' i f refl here raw3 (max_bytes - length out4) fresh.sizes
          (fits_behind out4 (8 + n + a + b + c) d max_bytes l4 r4) in
      let out5 = out4 ++ b4 in
      let l5 = length-behind out4 b4 (8 + n + a + b + c) d l4 (s4 ∙ twenty _) in
      let (b5, w5, s5, p5) =
        chunks_passes t store path' i f refl here raw4 (max_bytes - length out5) fresh.offsets
          (fits_behind out5 (8 + n + a + b + c + d) e max_bytes l5 r5) in
      let raw5 = with_chunks t raw4 (max_bytes - length out5) in
      let boxes : Boxes =
        (raw, sd) ∷ (raw1, b1) ∷ (raw2, b2) ∷ (raw3, b3) ∷ (raw4, b4) ∷ (raw5, b5) ∷ [] in
      (
        boxes,
        container_write-AllWritten max_bytes type_stbl _ boxes (head_fits n a max_bytes r1)
            (refl, (w1, (w2, (w3, (w4, (w5, tt)))))),
        length-six sd b1 b2 b3 b4 b5 a b c d e (s1 ∙ sixteen _) (s2 ∙ sixteen _) (s3 ∙ sixteen _)
            (s4 ∙ twenty _) (s5 ∙ sixteen _),
        refl,
        refl,
        λ file. (
          stsd-Passes path' i f raw file sd ws refl same more (part_small n a max_bytes r1 small),
          (p1 file, (p2 file, (p3 file, (p4 file, (p5 file, tt))))),
        ),
      )
