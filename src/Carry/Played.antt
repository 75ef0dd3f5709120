-- ===== src/Carry/Played.antt =====
-- src/mp4_mux.c, src/mp4_box_writer.c, src/mp4_box_reader.c and src/mp4_track.c together: the samples
-- of a track, muxed, written as boxes, read and built.
use libmp.Prelude.{
  Option, ℕ, List, [], some, Bool, ◌≡◌, none, true, ap, sym, length-map, ok, map, ◌+◌, ◌∷◌, ◌<◌,
  length, ok_eq, ◌∙◌, false, ◌≤◌, ◌^◌, ◌++◌,
}
use libmp.Mux.{MuxTrack}
use libmp.Read.Tables.{RawTrack}
use libmp.Track.{Track}
use libmp.Carry.{IsMuxed, carried, build_track-compute_tts}
use libmp.Carry.Whole.{with_tables, HasNoTables, stbl_size}
use libmp.Mux.Tts.{compute_tts}
use libmp.Build.{build_track}
use libmp.Read.Headers.{RawFile}
use libmp.Read.Handler.{BoxType}
use libmp.Carry.Stbl.{Storable}
use libmp.Read.Children.{is_root}
use mathlib.Core.Path.{subst}
use libmp.Bytes.{words}
use libmp.Write.Stbl.{stbl_write}
use libmp.Read.Children.Loop.{children_read}
use libmp.Carry.Passes.{plain_env, with_raw}
use libmp.Carry.Stored.{stbl_read-stbl_write}

abbrev or_empty {ℓ} : {A : Type ℓ} → Option (List A) → List A
or_empty none = []
or_empty (some xs) = xs

-- The track that `mp4_tracks_build` finds when the boxes are read: what they tell, and the rest as it
-- is in `u`
abbrev pub as_track : RawTrack → Track → Track
as_track raw u = record u {
  id = raw.id;
  kind = raw.kind;
  timescale = raw.timescale;
  duration = raw.duration;
  sample_count = raw.sample_count;
  sample_size = or_empty raw.sample_size;
  chunk_count = raw.chunk_count;
  chunk_offset = or_empty raw.chunk_offset;
  time_to_sample_entries = or_empty raw.time_to_sample_entries;
  sample_to_chunk_entries = or_empty raw.sample_to_chunk_entries;
  sync_sample_entry_count = raw.sync_sample_entry_count;
  sync_sample_entries = raw.sync_sample_entries;
  reference_type = raw.reference_type;
  reference_track_id = raw.reference_track_id;
}

carried-as_track :
    (raw : RawTrack) (t : MuxTrack) (u : Track)
    → carried t (as_track (with_tables raw t) u) ≡ as_track (with_tables raw t) u
carried-as_track raw t u =
    ap (λ n. record (as_track (with_tables raw t) u) { sample_count = n })
      (sym (length-map t.samples.entries (λ s. s.size)))

module _ (t : MuxTrack) (first : ℕ) (rest : List ℕ) (m : IsMuxed t first rest) (realloc : ℕ → Bool)
    (dest : ℕ) (memory : (n : ℕ) → realloc n ≡ true) (t' : MuxTrack) (raw : RawTrack) (u : Track)
    (computed : compute_tts realloc dest t ≡ ok t') where
  -- The build on the tables that were read
  built_from_boxes :
      (u' : Track) × (build_track true true (as_track (with_tables raw t') u) ≡ ok u')
      × (u'.sample_offset ≡ map (λ s. s.offset) t.samples.entries)
      × (u'.sample_size ≡ map (λ s. s.size) t.samples.entries)
      × (map (λ x. x + first) u'.sample_decoding_time ≡ first ∷ rest)
  built_from_boxes =
      let v = as_track (with_tables raw t') u in
      let (t2, e, u', built, offsets, sizes, times) =
        build_track-compute_tts t first rest m realloc dest v memory in
      let same : t2 ≡ t' = ok_eq (sym e ∙ computed) in
      (
        u',
        subst (λ x. build_track true true x ≡ ok u') (carried-as_track raw t' u)
            (subst (λ x. build_track true true (carried x v) ≡ ok u') same built),
        offsets,
        sizes,
        times,
      )

  module _ (f : RawFile) (i : ℕ) (path : List BoxType) (sd ws : List ℕ) (max_bytes : ℕ)
      (store : Storable t') (fresh : HasNoTables raw) (here : i < length f.tracks)
      (inner : is_root path ≡ false) (same : sd ≡ words (length sd ∷ 0x73747364 ∷ ws))
      (more : 8 < length sd) (room : stbl_size t' (length sd) ≤ max_bytes)
      (small : max_bytes < 2 ^ 32) where
    -- A track as the muxer keeps it (see `IsMuxed`), with its time-to-sample table computed, tables
    -- that the reader takes (see `Storable`), memory and room for the box: the sample table box is
    -- written. In a file that holds it between other bytes the reader reads it to its end, and the
    -- build on what was read gives exactly the offsets and the sizes of the samples, and their
    -- decoding times less the first one.
    pub build_track-stbl_write :
        (front back : List ℕ)
        → (bytes : List ℕ) × (stbl_write max_bytes (λ m. ok sd) t' ≡ ok bytes)
          × (read : RawTrack) × (children_read 8
                (plain_env (front ++ (bytes ++ back)))
                path
                (some i)
                (length bytes)
                (with_raw f i raw)
                (length front)
                0
                true
              ≡ some (
                  ok record {
                    file = with_raw f i read;
                    count = length bytes;
                    offset = length front + length bytes;
                  }))
          × (u' : Track) × (build_track true true (as_track read u) ≡ ok u')
          × (u'.sample_offset ≡ map (λ s. s.offset) t.samples.entries)
          × (u'.sample_size ≡ map (λ s. s.size) t.samples.entries)
          × (map (λ x. x + first) u'.sample_decoding_time ≡ first ∷ rest)
    build_track-stbl_write front back =
        let (bytes, written, _, found) =
          stbl_read-stbl_write t' raw f i path sd ws max_bytes store fresh here inner same more room
            small front back in
        let (u', built, offsets, sizes, times) = built_from_boxes in
        (bytes, written, with_tables raw t', found, u', built, offsets, sizes, times)
