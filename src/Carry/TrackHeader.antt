-- ===== src/Carry/TrackHeader.antt =====
-- src/mp4_box_writer.c and src/mp4_box_reader.c together: the header of a track.
use libmp.Read.Tables.{RawTrack}
use libmp.Mux.{MuxTrack}
use libmp.Bytes.{words, be_32, be_16, length-words}
use libmp.Types.{TrackType}
use libmp.Read.Headers.{flag, check_version, tkhd_read, read_time, version_of, divisible_by}
use libmp.Prelude.{
  ℕ, ◌%◌, List, arith, ◌∷◌, ◌^◌, ◌≡◌, ◌+◌, refl, ◌*◌, ◌/◌, [], ◌++◌, Res, Errno, ◌≤◌, ◌<◌, guard,
  ok, leb, ap, ◌∙◌, einval, drop, bind-ok,
}
use libmp.Read.Entries.{Fits, read_64-word, read_each-words}
use libmp.Write.Run.{join, write_box-fits}
use libmp.Write.Headers.{volume_of, high, low, extent_of, matrix, tkhd_write}
use libmp.Write.{zeroes}
use libmp.Read.{Cursor, advance, skip_rest}
use libmp.Read.Holds.{Holds}
use libmp.Carry.Tables.{IsCarried, inside}
use libmp.Read.Each.{Holds-words, read_32-word}
use libmp.Carry.Headers.{cursor_eq}

-- The words from the two reserved ones behind the duration on
abbrev track_rest : TrackType → ℕ → ℕ → List ℕ
track_rest k width height =
    0
    ∷ 0
    ∷ 0
    ∷ (volume_of k * 2 ^ 16)
    ∷ 0x00010000
    ∷ 0
    ∷ 0
    ∷ 0
    ∷ 0x00010000
    ∷ 0
    ∷ 0
    ∷ 0
    ∷ 0x40000000
    ∷ extent_of k width
    ∷ extent_of k height
    ∷ []

abbrev track_words : MuxTrack → TrackType → ℕ → ℕ → List ℕ
track_words t k width height =
    (t.flags % 2 ^ 3 + 0x01000000)
    ∷ t.creation_time / 2 ^ 32
    ∷ t.creation_time % 2 ^ 32
    ∷ t.modification_time / 2 ^ 32
    ∷ t.modification_time % 2 ^ 32
    ∷ t.id
    ∷ 0
    ∷ t.duration_moov / 2 ^ 32
    ∷ t.duration_moov % 2 ^ 32
    ∷ track_rest k width height

abbrev track_values : MuxTrack → TrackType → ℕ → ℕ → List (List ℕ)
track_values t k width height =
    (be_32 (t.flags % 2 ^ 3 + 0x01000000)
      ∷ high t.creation_time
      ∷ low t.creation_time
      ∷ high t.modification_time
      ∷ low t.modification_time
      ∷ be_32 t.id
      ∷ zeroes 4
      ∷ high t.duration_moov
      ∷ low t.duration_moov
      ∷ zeroes 8
      ∷ be_32 0
      ∷ be_16 (volume_of k)
      ∷ zeroes 2
      ∷ [])
    ++ matrix
    ++ (be_32 (extent_of k width) ∷ be_32 (extent_of k height) ∷ [])

track_run :
    (t : MuxTrack) (k : TrackType) (width height : ℕ)
    → join (track_values t k width height) ≡ words (track_words t k width height)
unfolding words be_32 be_16
track_run t TrackType.video width height = refl
track_run t TrackType.audio width height = refl
track_run t TrackType.unknown width height = refl
track_run t TrackType.hint width height = refl
track_run t TrackType.metadata width height = refl
track_run t TrackType.text width height = refl
track_run t TrackType.chapters width height = refl

track_rest-Fits : (k : TrackType) (width height : ℕ) → Fits (track_rest k width height)
track_rest-Fits TrackType.video width height = ground arith
track_rest-Fits TrackType.audio width height = ground arith
track_rest-Fits TrackType.unknown width height = ground arith
track_rest-Fits TrackType.hint width height = ground arith
track_rest-Fits TrackType.metadata width height = ground arith
track_rest-Fits TrackType.text width height = ground arith
track_rest-Fits TrackType.chapters width height = ground arith

-- What the reader keeps of a track's header
abbrev pub with_header : RawTrack → MuxTrack → RawTrack
with_header raw t = record raw {
  id = t.id;
  enabled = flag t.flags 0;
  in_movie = flag t.flags 1;
  in_preview = flag t.flags 2;
}

-- The same, with the flags of the word that is read
abbrev read_header : RawTrack → MuxTrack → ℕ → RawTrack
read_header raw t w = record raw {
  id = t.id;
  enabled = flag w 0;
  in_movie = flag w 1;
  in_preview = flag w 2;
}

read_header-eq :
    (raw : RawTrack) (t : MuxTrack)
    → read_header raw t (t.flags % 2 ^ 3 + 0x01000000) ≡ with_header raw t
read_header-eq raw t =
    let a : (t.flags % 2 ^ 3 + 0x01000000) / 2 ^ 0 % 2 ≡ t.flags / 2 ^ 0 % 2 = omega arith in
    let b : (t.flags % 2 ^ 3 + 0x01000000) / 2 ^ 1 % 2 ≡ t.flags / 2 ^ 1 % 2 = omega arith in
    let c : (t.flags % 2 ^ 3 + 0x01000000) / 2 ^ 2 % 2 ≡ t.flags / 2 ^ 2 % 2 = omega arith in
    rw (a, b, c) refl

-- A time that the reader finds in version 1 of a box
read_time-word :
    (pread : ℕ → ℕ → Res (List ℕ)) (version : ℕ) (c : Cursor) (v : ℕ) (ws : List ℕ)
    → version ≡ 1
    → v < 2 ^ 64
    → Holds pread c.offset (words (v / 2 ^ 32 ∷ v % 2 ^ 32 ∷ ws))
    → (read_time version pread c ≡ ok (v, advance c 8)) × Holds pread (c.offset + 8) (words ws)
read_time-word pread version c v ws e small h =
    let (found, behind) = read_64-word pread c v ws small h in
    (ap (λ n. read_time n pread c) e ∙ found, behind)

guard_ok : (m n : ℕ) (e : Errno) → m ≤ n → guard (leb m n) e ≡ ok tt
guard_ok m n e h = ground arith

check_version-1 :
    (version max_bytes expected : ℕ)
    → version ≡ 1
    → expected ≤ max_bytes
    → check_version version max_bytes expected ≡ ok tt
check_version-1 version max_bytes expected e h =
    ap (λ n. check_version n max_bytes expected) e ∙ guard_ok expected max_bytes einval h

-- Times and an identifier that fit their fields
pub record HeaderFits (t : MuxTrack) : Type 0 where
  pub created : t.creation_time < 2 ^ 64
  pub modified : t.modification_time < 2 ^ 64
  pub named : t.id < 2 ^ 32
  pub long : t.duration_moov < 2 ^ 64

tkhd_read-words :
    (t : MuxTrack) (raw : RawTrack) (kind width height movie_timescale : ℕ)
    (pread : ℕ → ℕ → Res (List ℕ)) (offset : ℕ)
    → HeaderFits t
    → 0 < movie_timescale
    → Holds pread offset (words (104 ∷ kind ∷ track_words t t.kind width height))
    → tkhd_read pread movie_timescale 96 raw (inside offset)
      ≡ ok (with_header raw t, advance (inside offset) 96)
unfolding tkhd_read advance skip_rest
tkhd_read-words t raw kind width height movie_timescale pread offset fit ticks h =
    let rest = track_rest t.kind width height in
    let ws = track_words t t.kind width height in
    let w = t.flags % 2 ^ 3 + 0x01000000 in
    let version : version_of w ≡ 1 = omega arith in
    let divides : divisible_by movie_timescale ≡ ok tt = ground (arith, ticks) in
    let h0 = Holds-words pread offset (104 ∷ kind ∷ []) ws h in
    let c0 = inside offset in
    let c1 = advance c0 4 in
    let c2 = advance c1 8 in
    let c3 = advance c2 8 in
    let c4 = advance c3 4 in
    let c5 = advance c4 4 in
    let c6 = advance c5 8 in
    let (head, h1) = read_32-word pread c0 w (drop 1 ws) (omega arith) h0 in
    let (created, h2) =
      read_time-word pread (version_of w) c1 t.creation_time (drop 3 ws) version fit.created h1 in
    let (modified, h3) =
      read_time-word pread (version_of w) c2 t.modification_time (drop 5 ws) version fit.modified
        h2 in
    let (named, h4) = read_32-word pread c3 t.id (drop 6 ws) fit.named h3 in
    let (reserved, h5) = read_32-word pread c4 0 (drop 7 ws) (omega arith) h4 in
    let (long, h6) =
      read_time-word pread (version_of w) c5 t.duration_moov rest version fit.long h5 in
    let others = read_each-words pread c6 rest (track_rest-Fits t.kind width height) h6 in
    let same : (offset + 8 + 4 + 8 + 8 + 4 + 4 + 8 + 60 + 0 ≡ offset + 8 + 96) = omega arith in
    bind-ok _ head
    ∙ bind-ok _ (check_version-1 (version_of w) 96 96 version (omega arith))
    ∙ bind-ok _ created
    ∙ bind-ok _ modified
    ∙ bind-ok _ named
    ∙ bind-ok _ reserved
    ∙ bind-ok _ long
    ∙ bind-ok _ divides
    ∙ bind-ok _ others
    ∙ ap (λ d. ok (read_header raw t w, d))
        (cursor_eq (skip_rest 96 (advance c6 60)) (advance c0 96) same refl)
    ∙ ap (λ u. ok (u, advance c0 96)) (read_header-eq raw t)

-- The identifier and the flags of a track come back from its header, if the header of the movie has
-- been read before.
pub tkhd_write-IsCarried :
    (t : MuxTrack) (raw : RawTrack) (max_bytes kind width height movie_timescale : ℕ)
    → HeaderFits t
    → 0 < movie_timescale
    → 104 ≤ max_bytes
    → IsCarried
        (tkhd_write max_bytes kind width height t)
        96
        (λ pread body c. tkhd_read pread movie_timescale body raw c)
        (with_header raw t)
unfolding tkhd_write
tkhd_write-IsCarried t raw max_bytes kind width height movie_timescale fit ticks fits =
    let ws = track_words t t.kind width height in
    (
      words (104 ∷ kind ∷ ws),
      write_box-fits max_bytes 104 kind _ ws (track_run t t.kind width height) refl fits,
      length-words (104 ∷ kind ∷ ws),
      λ pread offset h.
          tkhd_read-words t raw kind width height movie_timescale pread offset fit ticks h,
    )
