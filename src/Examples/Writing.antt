-- ===== src/Examples/Writing.antt =====
-- A run of the muxer: a track, two samples, a reference and metadata.
use libmp.Mux.Sample.{
  add_track, add_ref_to_track, Io, add_sample, add_scattered_sample, add_ref, contains,
  add_to_track, Written, write_sample, stored, rolls_back, is_video, grow_sync_for,
}
use libmp.Mux.{
  TrackParams, Mux, is_muxable, new_track, track_find_by_handle, find_track, update_track, flags_of,
  MuxMetadata, Storage,
}
use libmp.Prelude.{
  [], true, false, none, ◌∷◌, ◌≡◌, ok, err, enoent, einval, refl, pos, enospc, List, some, ℕ,
  replicate, enobufs,
}
use libmp.Types.{TrackType}
use libmp.Mux.Grow.{grow_stc, grow, grow_loop, grow_samples, grow_chunks, grow_sync}
use libmp.Mux.Metadata.{
  add_file_metadata, add_track_metadata, codes, add_metadata, after_first, add_alternate,
  after_alternate, add_one, put, storage_of, same_text, get_alternate_metadata_key, find_alternate,
}
use libmp.Demux.Info.{
  FileMetadata, metadata_build, get_metadata_cover, final_cover_of, final_entries, final_count,
  copy_entries, count_entries, is_valid_entry, validate_str_len, strnlen,
}

abbrev empty_mux : Mux
empty_mux = record {
  position = 48;
  timescale = 1000;
  duration = 0;
  tracks = [];
  track_count = 0;
  metadatas = [];
}

abbrev video : TrackParams
video = record {
  kind = TrackType.video;
  enabled = true;
  in_movie = true;
  in_preview = false;
  timescale = 90000;
  creation_time = 0;
  modification_time = 0;
}

abbrev with_video : Mux
with_video = record empty_mux { tracks = new_track video 1 128 ∷ []; track_count = 1 }

add_track_run :
    (add_track true (λ n. true) empty_mux video ≡ ok (1, with_video))
    × (add_track true (λ n. true) empty_mux (record video { timescale = 0 }) ≡ err einval)
    × (add_track true (λ n. true) empty_mux (record video { kind = TrackType.text }) ≡ err einval)
unfolding add_track is_muxable grow_stc grow grow_loop flags_of
add_track_run = (refl, refl, refl)

abbrev referring : Mux
referring = record with_video {
  tracks = record (new_track video 1 128) { reference_track_handle = 2 ∷ [] } ∷ [];
}

add_ref_run :
    (add_ref_to_track with_video 1 2 ≡ ok referring)
    × (add_ref_to_track referring 1 2 ≡ ok referring)
    × (add_ref_to_track with_video 3 2 ≡ err enoent)
unfolding add_ref_to_track add_ref contains track_find_by_handle find_track update_track flags_of
add_ref_run = (refl, refl, refl)

abbrev good_io : Io
good_io = record {
  iov_room = true;
  realloc = λ n. true;
  seek = none;
  written = Written.bytes 5;
  seek_back = true;
}

-- The track with one sample, and the track after a write that failed.
abbrev with_sample : Mux
with_sample = record with_video {
  position = 53;
  tracks =
      record (new_track video 1 128) {
        samples = record {
          entries = record { size = 5; decoding_time = 100; offset = 48 } ∷ [];
          capacity = 128;
        };
        chunks = record { entries = 48 ∷ []; capacity = 128 };
        sync = record { entries = 1 ∷ []; capacity = 128 };
        last_dts = pos 100;
      }
      ∷ [];
}

abbrev with_room : Mux
with_room = record with_video {
  tracks =
      record (new_track video 1 128) {
        samples = record { entries = []; capacity = 128 };
        chunks = record { entries = []; capacity = 128 };
        sync = record { entries = []; capacity = 128 };
      }
      ∷ [];
}

add_sample_run :
    (add_sample good_io with_video 1 5 true (pos 100) ≡ (ok tt, with_sample))
    × (add_sample good_io with_sample 1 5 true (pos 100) ≡ (err einval, with_sample))
    × (add_sample (record good_io { written = Written.bytes 3 }) with_video 1 5 true (pos 100)
        ≡ (err enospc, with_room))
    × (add_sample good_io with_video 2 5 true (pos 100) ≡ (err enoent, with_video))
unfolding add_sample add_scattered_sample add_to_track write_sample stored rolls_back is_video
    grow_sync_for grow_samples grow_chunks grow_sync grow grow_loop track_find_by_handle find_track
    update_track flags_of
add_sample_run = (refl, refl, refl, refl)

abbrev maker : List ℕ
maker = codes "com.apple.quicktime.make"

abbrev both_keys : List MuxMetadata
both_keys =
    record { key = maker; value = 66 ∷ []; storage = Storage.meta }
    ∷ record { key = 0xa9 ∷ codes "mak"; value = 66 ∷ []; storage = Storage.udta }
    ∷ []

add_metadata_run :
    (add_file_metadata (λ n. true) with_video maker (66 ∷ [])
      ≡ (ok tt, record with_video { metadatas = both_keys }))
    × (add_track_metadata (λ n. true) with_video 1 maker (66 ∷ []) ≡ (
      ok tt,
      record with_video { tracks = record (new_track video 1 128) { metadatas = both_keys } ∷ [] },
    ))
    × (add_track_metadata (λ n. true) with_video 2 maker (66 ∷ []) ≡ (err einval, with_video))
    × (add_file_metadata (λ n. true) with_video (65 ∷ []) (66 ∷ []) ≡ (err einval, with_video))
unfolding add_file_metadata add_track_metadata add_metadata after_first add_alternate
    after_alternate add_one put storage_of same_text get_alternate_metadata_key find_alternate
    track_find_by_handle find_track update_track flags_of
add_metadata_run = (refl, refl, refl, refl)

-- The cover of the meta box goes before that of the udta box.
abbrev tagged : FileMetadata
tagged = record {
  meta = (some (65 ∷ []), some (66 ∷ [])) ∷ (some (65 ∷ []), some []) ∷ [];
  udta = [];
  location = (none, none);
  meta_cover = (4, 100, 1);
  udta_cover = (5, 200, 2);
  final = [];
  final_cover = (0, 0, 0);
}

abbrev tagged_built : FileMetadata
tagged_built = record tagged {
  final = (some (65 ∷ []), some (66 ∷ [])) ∷ [];
  final_cover = (4, 100, 1);
}

metadata_build_run :
    (metadata_build true true tagged ≡ ok tagged_built)
    × (get_metadata_cover (λ o n. ok (replicate n 0)) tagged_built (some 4)
        ≡ ok (4, some 1, 0 ∷ 0 ∷ 0 ∷ 0 ∷ []))
    × (get_metadata_cover (λ o n. ok (replicate n 0)) tagged_built (some 3) ≡ err enobufs)
unfolding metadata_build get_metadata_cover final_cover_of final_entries final_count copy_entries
    count_entries is_valid_entry validate_str_len strnlen
metadata_build_run = (refl, refl, refl)
