-- ===== src/Examples/Files.antt =====
-- The track registry, the chapters and the metadata, on small files.
use libmp.Demux.Info.{FileMetadata, final_entries, Entry}
use libmp.File.{track_find_by_idx, Mp4File, track_remove, track_add, track_new}
use libmp.Prelude.{
  ℕ, ◌∷◌, Res, ◌≡◌, arith, [], refl, some, List, none, ◌++◌, ◌+◌, ok, length, ◌≤◌, if◌then◌else◌,
  true, ◌==◌,
}
use libmp.File.Chapters.{chapter_loop, chapter_size, chapter_at, read_16, chapters_max}
use libmp.File.Registry.{
  IsRegistry, track_remove-IsRegistry, track_add-IsRegistry, track_find_by_idx-get_elem?,
  track_remove-track_add,
}
use libmp.Examples.{played}
use libmp.Demux.Entries.{valid_entries, final_entries-valid}
use libmp.Track.{read_at}
use libmp.Time.{sample_time_to_usec}
use libmp.File.Limit.{chapter_loop-small}

abbrev one_track_file : Mp4File
one_track_file = record {
  tracks = played ∷ [];
  track_count = 1;
  timescale = 1000;
  duration = 25;
  creation_time = 0;
  modification_time = 0;
  chapters = [];
}

one_track_file-IsRegistry : IsRegistry one_track_file
one_track_file-IsRegistry = record { counted = refl; apart = refl; few = omega arith }

track_add-IsRegistry_example : IsRegistry (track_add (some 2) one_track_file).1
track_add-IsRegistry_example =
    track_add-IsRegistry one_track_file 2 one_track_file-IsRegistry refl (omega arith)

track_remove-IsRegistry_example : IsRegistry (track_remove one_track_file 1).1
track_remove-IsRegistry_example = track_remove-IsRegistry one_track_file 1 one_track_file-IsRegistry

track_remove-track_add_example :
    track_remove (track_add (some 2) one_track_file).1 2 ≡ (ok tt, one_track_file)
track_remove-track_add_example = track_remove-track_add one_track_file 2 refl (omega arith)

track_find_by_idx-get_elem?_example :
    track_find_by_idx (played ∷ track_new 2 ∷ []) 0 (0 + 1) ≡ some (track_new 2)
track_find_by_idx-get_elem?_example = track_find_by_idx-get_elem? (played ∷ track_new 2 ∷ []) 0 1

-- Every name is "A".
abbrev names : ℕ → ℕ → Res (List ℕ)
names offset size = if size == 2 then ok (0 ∷ 1 ∷ []) else ok (65 ∷ [])

chapter_loop-small_example :
    length {A = ℕ × List ℕ} ((0, 65 ∷ []) ∷ (10000, 65 ∷ []) ∷ (20000, 65 ∷ []) ∷ []) ≤ chapters_max
unfolding chapter_loop chapter_size chapter_at read_at read_16 sample_time_to_usec
chapter_loop-small_example =
    chapter_loop-small names (λ i. true) played 3 0 []
      ((0, 65 ∷ []) ∷ (10000, 65 ∷ []) ∷ (20000, 65 ∷ []) ∷ []) (omega arith) refl

abbrev entry_of : ℕ → Entry
entry_of c = (some (c ∷ []), some (c ∷ []))

abbrev some_metadata : FileMetadata
some_metadata = record {
  meta = entry_of 65 ∷ (some [], some (66 ∷ [])) ∷ [];
  udta = (none, none) ∷ entry_of 67 ∷ [];
  location = entry_of 68;
  meta_cover = (0, 0, 0);
  udta_cover = (0, 0, 0);
  final = [];
  final_cover = (0, 0, 0);
}

final_entries-valid_example :
    final_entries some_metadata
    ≡ (valid_entries some_metadata.meta ++ valid_entries some_metadata.udta)
      ++ valid_entries (some_metadata.location ∷ [])
final_entries-valid_example = final_entries-valid some_metadata
