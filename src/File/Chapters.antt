-- ===== src/File/Chapters.antt =====
-- src/mp4_track.c: the chapter list that `mp4_tracks_build` makes, and the whole of that function.
-- `lseek` followed by `read` is the parameter `pread`: an offset and a size to the bytes that were
-- read, at most so many, or the `errno` of the call that failed.
use libmp.Prelude.{
  List, ℕ, Res, Bool, Option, ◌>>=◌, ◌>>◌, ok, none, guard, suc, [], ◌+◌, enomem, if◌then◌else◌,
  map, some, leb, length, ◌==◌, ◌++◌, fault, sub32, ◌∷◌, enodata, zero, ◌*◌, err, eio,
}
use libmp.Track.{Track, read_at}
use libmp.File.{Build, Mp4File, build_all, link_alone, track_find}
use libmp.Time.{sample_time_to_usec}

abbrev pub chapters_max : ℕ
chapters_max = 100

-- `MP4_READ_16` and `ntohs`
unfoldable pub read_16 : List ℕ → Res ℕ
read_16 (hi ∷ lo ∷ []) = ok (hi * 256 + lo)
read_16 _ = err eio

-- The size of the name of chapter `i`, and where its sample starts; `none` if the name does not fit
-- in the sample, where the size is compared with `sampleSize - readBytes` on unsigned ints.
unfoldable pub chapter_size : (ℕ → ℕ → Res (List ℕ)) → Track → ℕ → Res (Option (ℕ × ℕ))
chapter_size pread t i = do
  size ← read_at t.sample_size i
  offset ← read_at t.sample_offset i
  bytes ← pread offset 2
  sz ← read_16 bytes
  ok (if leb sz (sub32 size 2) then some (offset, sz) else none)

-- The time of chapter `i` and the bytes of its name, read after the size.
unfoldable pub chapter_at : (ℕ → ℕ → Res (List ℕ)) → Bool → Track → ℕ → ℕ → ℕ → Res (ℕ × List ℕ)
chapter_at pread room t i offset sz = do
  guard room enomem
  name ← pread (offset + 2) sz
  guard (length name == sz) enodata
  time ← read_at t.sample_decoding_time i
  ok (sample_time_to_usec time t.timescale, name)

-- The loop over the samples of the chapter track, `k` rounds from `i` on, with the chapters so far.
unfoldable pub chapter_loop :
    (ℕ → ℕ → Res (List ℕ))
    → (ℕ → Bool)
    → Track
    → ℕ
    → ℕ
    → List (ℕ × List ℕ)
    → Res (List (ℕ × List ℕ))
chapter_loop pread room t zero i done = ok done
chapter_loop pread room t (suc k) i done = chapter_size pread t i >>= λ found. elim found [
  | none ↦ chapter_loop pread room t k (i + 1) done
  | some (offset, sz) ↦
      if leb chapters_max (length done)
      then ok done
      else (chapter_at pread (room i) t i offset sz >>= λ c.
          chapter_loop pread room t k (i + 1) (done ++ (c ∷ [])))
]

unfoldable pub build_chapters :
    (ℕ → ℕ → Res (List ℕ)) → (ℕ → Bool) → Build → Res (List (ℕ × List ℕ))
build_chapters pread room b = elim b.chap_tk [
  | none ↦ ok []
  | some addr ↦ elim (track_find b.tracks addr) [
    | none ↦ fault
    | some t ↦ chapter_loop pread room t t.sample_count 0 []
  ]
]

unfoldable pub build_start : List Track → Build
build_start ts = record {
  tracks = ts;
  video_tk = none;
  meta_tk = none;
  chap_tk = none;
  video_track_count = 0;
  audio_track_count = 0;
  hint_track_count = 0;
  metadata_track_count = 0;
}

-- `mp4_tracks_build` on a file that has no chapters yet. An error forgets the file, which
-- `mp4_demux_open` then closes.
unfoldable pub tracks_build :
    (ℕ → ℕ → Res (List ℕ)) → (ℕ → Bool × Bool) → (ℕ → Bool) → Mp4File → Res Mp4File
tracks_build pread rooms room f = do
  built ← build_all rooms 0 (map (λ t. t.addr) f.tracks) (build_start f.tracks)
  let linked = link_alone built
  chapters ← build_chapters pread room linked
  ok (record f { tracks = linked.tracks; chapters = chapters })
