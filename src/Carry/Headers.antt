-- ===== src/Carry/Headers.antt =====
-- src/mp4_box_writer.c and src/mp4_box_reader.c together: the headers of the movie, of a track and of
-- its media.
use libmp.Write.Headers.{mdhd_write, mvhd_write, high, low, matrix}
use libmp.Mux.{MuxTrack, Mux}
use libmp.Read.{Cursor, advance, skip_rest}
use libmp.Read.Headers.{Times, read_times, mdhd_read, RawFile, mvhd_read}
use libmp.Prelude.{
  List, ◌<◌, ◌≡◌, refl, ◌^◌, ℕ, ◌/◌, Res, ◌∷◌, ◌%◌, ok, ◌≤◌, ◌+◌, [], arith, bind-ok, ◌∙◌, ap,
  guard-yes, eproto, lt→ltb, ◌++◌,
}
use libmp.Bytes.{words, length-words, be_16, be_32}
use libmp.Read.Holds.{Holds}
use libmp.Read.Tables.{RawTrack}
use libmp.Carry.Tables.{IsCarried, inside}
use libmp.Read.Entries.{read_64-word, Fits, read_each-words}
use libmp.Write.Run.{write_box-fits, join}
use libmp.Read.Each.{read_32-word, Holds-words}
use mathlib.Core.Path.{subst}
use libmp.Write.{zeroes}

pub cursor_eq : (c d : Cursor) → c.offset ≡ d.offset → c.count ≡ d.count → c ≡ d
cursor_eq c d p q = rw (p, q) refl

-- The words of the times, in version 1 of a box
abbrev pub times_words : Times → List ℕ → List ℕ
times_words x ws =
    x.creation_time / 2 ^ 32
    ∷ x.creation_time % 2 ^ 32
    ∷ x.modification_time / 2 ^ 32
    ∷ x.modification_time % 2 ^ 32
    ∷ x.timescale
    ∷ x.duration / 2 ^ 32
    ∷ x.duration % 2 ^ 32
    ∷ ws

-- Times that fit their fields, and a timescale that divides
pub record TimesFit (x : Times) : Type 0 where
  pub created : x.creation_time < 2 ^ 64
  pub modified : x.modification_time < 2 ^ 64
  pub ticks : 0 < x.timescale
  pub small : x.timescale < 2 ^ 32
  pub long : x.duration < 2 ^ 64

read_times-words :
    (pread : ℕ → ℕ → Res (List ℕ)) (c : Cursor) (x : Times) (ws : List ℕ)
    → TimesFit x
    → Holds pread c.offset (words (times_words x ws))
    → (read_times pread 1 c ≡ ok (x, advance c 28)) × Holds pread (c.offset + 28) (words ws)
unfolding read_times advance
read_times-words pread c x ws fit h =
    let (created, h1) = read_64-word pread c x.creation_time _ fit.created h in
    let (modified, h2) = read_64-word pread (advance c 8) x.modification_time _ fit.modified h1 in
    let (ticks, h3) = read_32-word pread (advance (advance c 8) 8) x.timescale _ fit.small h2 in
    let (long, h4) =
      read_64-word pread (advance (advance (advance c 8) 8) 4) x.duration ws fit.long h3 in
    let e : c.offset + 8 + 8 + 4 + 8 ≡ c.offset + 28 = omega arith in
    (
      bind-ok _ created
          ∙ bind-ok _ modified
          ∙ bind-ok _ ticks
          ∙ guard-yes eproto _ (lt→ltb 0 x.timescale fit.ticks)
          ∙ bind-ok _ long
          ∙ ap (λ d. ok (x, d)) (cursor_eq _ _ e (omega arith)),
      subst (λ n. Holds pread n (words ws)) e h4,
    )

abbrev pub media_times : MuxTrack → Times
media_times t = record {
  creation_time = t.creation_time;
  modification_time = t.modification_time;
  timescale = t.timescale;
  duration = t.duration;
}

abbrev pub with_times : RawTrack → Times → RawTrack
with_times raw x = record raw {
  creation_time = x.creation_time;
  modification_time = x.modification_time;
  timescale = x.timescale;
  duration = x.duration;
}

-- The times, the timescale and the duration of a media come back from its header.
pub mdhd_write-IsCarried :
    (t : MuxTrack) (raw : RawTrack) (max_bytes kind : ℕ)
    → TimesFit (media_times t)
    → 44 ≤ max_bytes
    → IsCarried
        (mdhd_write max_bytes kind t)
        36
        (λ pread body c. mdhd_read pread body raw c)
        (with_times raw (media_times t))
unfolding mdhd_write mdhd_read words advance skip_rest
mdhd_write-IsCarried t raw max_bytes kind fit fits =
    let x = media_times t in
    let ws = 0x01000000 ∷ times_words x (0 ∷ []) in
    (
      words (44 ∷ kind ∷ ws),
      write_box-fits max_bytes 44 kind _ ws refl refl fits,
      length-words (44 ∷ kind ∷ ws),
      λ pread offset h.
          let h0 = Holds-words pread offset (44 ∷ kind ∷ []) ws h in
          let (head, h1) =
            read_32-word pread (inside offset) 0x01000000 (times_words x (0 ∷ [])) (omega arith)
              h0 in
          let (times, h2) = read_times-words pread (advance (inside offset) 4) x (0 ∷ []) fit h1 in
          let c = advance (advance (inside offset) 4) 28 in
          let (language, _) = read_32-word pread c 0 [] (omega arith) h2 in
          let same : (offset + 8 + 4 + 28 + 4 + 0 ≡ offset + 8 + 36) = omega arith in
          bind-ok _ head
          ∙ bind-ok _ times
          ∙ bind-ok _ language
          ∙ ap (λ d. ok (with_times raw x, d))
              (cursor_eq (skip_rest 36 (advance c 4)) (advance (inside offset) 36) same refl),
    )

-- The words behind the duration in the header of the movie
abbrev movie_rest : Mux → List ℕ
movie_rest m =
    0x00010000
    ∷ 0x01000000
    ∷ 0
    ∷ 0
    ∷ 0x00010000
    ∷ 0
    ∷ 0
    ∷ 0
    ∷ 0x00010000
    ∷ 0
    ∷ 0
    ∷ 0
    ∷ 0x40000000
    ∷ 0
    ∷ 0
    ∷ 0
    ∷ 0
    ∷ 0
    ∷ 0
    ∷ (m.track_count + 1)
    ∷ []

abbrev pub movie_times : ℕ → ℕ → Mux → Times
movie_times created modified m = record {
  creation_time = created;
  modification_time = modified;
  timescale = m.timescale;
  duration = m.duration;
}

abbrev pub with_movie : RawFile → Times → RawFile
with_movie f x = record f {
  creation_time = x.creation_time;
  modification_time = x.modification_time;
  timescale = x.timescale;
  duration = x.duration;
}

movie_run :
    (m : Mux) (created modified : ℕ)
    → join (
        (be_32 0x01000000
          ∷ high created
          ∷ low created
          ∷ high modified
          ∷ low modified
          ∷ be_32 m.timescale
          ∷ high m.duration
          ∷ low m.duration
          ∷ be_32 0x00010000
          ∷ be_16 0x0100
          ∷ zeroes 10
          ∷ [])
        ++ matrix
        ++ (zeroes 24 ∷ be_32 (m.track_count + 1) ∷ []))
      ≡ words (0x01000000 ∷ times_words (movie_times created modified m) (movie_rest m))
unfolding words be_32 be_16
movie_run m created modified = refl

-- The times, the timescale and the duration of the movie come back from its header.
pub mvhd_write-IsCarried :
    (m : Mux) (created modified : ℕ) (f : RawFile) (max_bytes kind : ℕ)
    → TimesFit (movie_times created modified m)
    → m.track_count + 1 < 2 ^ 32
    → 120 ≤ max_bytes
    → IsCarried
        (mvhd_write max_bytes kind created modified m)
        112
        (λ pread body c. mvhd_read pread body f c)
        (with_movie f (movie_times created modified m))
unfolding mvhd_write mvhd_read advance skip_rest
mvhd_write-IsCarried m created modified f max_bytes kind fit few fits =
    let x = movie_times created modified m in
    let ws = 0x01000000 ∷ times_words x (movie_rest m) in
    (
      words (120 ∷ kind ∷ ws),
      write_box-fits max_bytes 120 kind _ ws (movie_run m created modified) refl fits,
      length-words (120 ∷ kind ∷ ws),
      λ pread offset h.
          let h0 = Holds-words pread offset (120 ∷ kind ∷ []) ws h in
          let (head, h1) =
            read_32-word pread (inside offset) 0x01000000 (times_words x (movie_rest m))
              (omega arith) h0 in
          let (times, h2) =
            read_times-words pread (advance (inside offset) 4) x (movie_rest m) fit h1 in
          let c = advance (advance (inside offset) 4) 28 in
          let small : Fits (movie_rest m) = ground (arith, few) in
          let others = read_each-words pread c (movie_rest m) small h2 in
          let same : (offset + 8 + 4 + 28 + 80 + 0 ≡ offset + 8 + 112) = omega arith in
          bind-ok _ head
          ∙ bind-ok _ times
          ∙ bind-ok _ others
          ∙ ap (λ d. ok (with_movie f x, d))
              (cursor_eq (skip_rest 112 (advance c 80)) (advance (inside offset) 112) same refl),
    )
