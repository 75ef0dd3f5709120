-- ===== src/Examples/Boxes.antt =====
-- Files of a few boxes that the reader goes through, and boxes that the writer puts.
use libmp.Read.Children.Ends.{Ends, children_read-Ends}
use libmp.Read.Headers.{RawFile, tkhd_read, ftyp_read, mvhd_read, tref_read, read_times}
use libmp.Prelude.{
  List, [], ℕ, ◌∷◌, ◌++◌, none, length, false, true, ok, ◌≡◌, fault, some, arith, refl,
}
use libmp.Bytes.{words, be_32, from_be}
use libmp.Read.Children.Loop.{children_read, box_read, skip_box}
use libmp.Read.Handler.{BoxType, box_type}
use libmp.Read.Holds.{file_pread, file_pread-Holds}
use libmp.Read.Children.{
  Env, fresh_track, read_head, check_head, read_size, check_off_t, body, on_track,
}
use libmp.Write.{zeroes}
use libmp.Read.Malformed.{children_read-zero_size, tkhd_read-no_movie}
use libmp.Read.{read_be, advance, read_each, skip_rest}
use libmp.Track.{read_at}

abbrev pub nothing : RawFile
nothing = record {
  creation_time = 0;
  modification_time = 0;
  timescale = 0;
  duration = 0;
  tracks = [];
}

-- A file with memory to be had, whose boxes of the other kinds are passed over
abbrev pub env : List ℕ → Env
env file = record {
  pread = file_pread file;
  size = length file;
  room = λ n. true;
  others = λ path track kind max_bytes f c. ok (f, c);
}

-- `ftyp`, and `moov` with the size 0 and four bytes in it
abbrev open_ended : List ℕ
open_ended =
    words (16 ∷ 0x66747970 ∷ 0x69736f6d ∷ 2 ∷ []) ++ (words (0 ∷ 0x6d6f6f76 ∷ []) ++ words (7 ∷ []))

children_read-Ends_example :
    Ends (children_read 29 (env open_ended) (BoxType.root ∷ []) none 28 nothing 0 0 true)
children_read-Ends_example =
    children_read-Ends 29 (env open_ended) (BoxType.root ∷ []) none 28 nothing 0 0 true
      (omega arith)

children_read-zero_size_example :
    children_read 1 (env open_ended) (BoxType.root ∷ []) none 28 nothing 16 16 false
    ≡ some (ok record { file = nothing; count = 28; offset = 24 })
unfolding words be_32
children_read-zero_size_example =
    children_read-zero_size 0 (env open_ended) (BoxType.root ∷ []) none 28 nothing 16 16 0x6d6f6f76
      (omega arith) refl (omega arith) (omega arith) (omega arith) (omega arith) (omega arith)
      (file_pread-Holds (words (16 ∷ 0x66747970 ∷ 0x69736f6d ∷ 2 ∷ []))
        (words (0 ∷ 0x6d6f6f76 ∷ [])) (words (7 ∷ [])))

-- A header of version 1, as the muxer writes it
tkhd_read-no_movie_example :
    tkhd_read
      (file_pread (words (0x01000007 ∷ 0 ∷ 0 ∷ 0 ∷ 0 ∷ 1 ∷ 0 ∷ 0 ∷ 9 ∷ []) ++ zeroes 60))
      0
      96
      fresh_track
      record { offset = 0; count = 0 }
    ≡ fault
tkhd_read-no_movie_example =
    tkhd_read-no_movie
      (file_pread (words (0x01000007 ∷ 0 ∷ 0 ∷ 0 ∷ 0 ∷ 1 ∷ 0 ∷ 0 ∷ 9 ∷ []) ++ zeroes 60)) 96
      fresh_track record { offset = 0; count = 0 } 0x01000007 (0 ∷ 0 ∷ 0 ∷ 0 ∷ 1 ∷ 0 ∷ 0 ∷ 9 ∷ [])
      (omega arith) (omega arith)
      (file_pread-Holds [] (words (0x01000007 ∷ 0 ∷ 0 ∷ 0 ∷ 0 ∷ 1 ∷ 0 ∷ 0 ∷ 9 ∷ [])) (zeroes 60))

-- A file: `ftyp`, a box that no reader wants, `moov` with its header and a track
abbrev movie_file : List ℕ
movie_file =
    words (20 ∷ 0x66747970 ∷ 0x69736f6d ∷ 2 ∷ 0x69736f32 ∷ [])
    ++ words (12 ∷ 0x66726565 ∷ 5 ∷ [])
    ++ words (244 ∷ 0x6d6f6f76 ∷ 108 ∷ 0x6d766864 ∷ 0 ∷ 11 ∷ 12 ∷ 600 ∷ 1200 ∷ [])
    ++ zeroes 80
    ++ words (128 ∷ 0x7472616b ∷ 92 ∷ 0x746b6864 ∷ 3 ∷ 0 ∷ 0 ∷ 5 ∷ 0 ∷ 1200 ∷ [])
    ++ zeroes 60
    ++ words (28 ∷ 0x74726566 ∷ 20 ∷ 0x63686170 ∷ 8 ∷ 9 ∷ 10 ∷ [])
    ++ zeroes 1

read_run :
    children_read 400 (env movie_file) (BoxType.root ∷ []) none (length movie_file) nothing 0 0 true
    ≡ some (
        ok record {
          file = record {
            creation_time = 11;
            modification_time = 12;
            timescale = 600;
            duration = 1200;
            tracks =
                record fresh_track {
                  id = 5;
                  enabled = true;
                  in_movie = true;
                  reference_type = 0x63686170;
                  reference_track_id = 8 ∷ 9 ∷ 10 ∷ [];
                }
                ∷ [];
          };
          count = 276;
          offset = 276;
        })
unfolding children_read words be_32 read_head read_be file_pread advance check_head box_type from_be
    read_size check_off_t box_read body ftyp_read read_each skip_box skip_rest mvhd_read tkhd_read
    tref_read read_times on_track read_at
read_run = refl
