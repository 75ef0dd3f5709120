-- ===== src/Examples/Bytes.antt =====
-- A track of three samples whose boxes are written into a file and read back.
use libmp.Carry.ReadBack.{
  ReadBack, stsz_read-stsz_write, chunks_read-chunks_write, tkhd_read-tkhd_write,
  mvhd_read-mvhd_write,
}
use libmp.Mux.{MuxTrack, new_track}
use libmp.Prelude.{
  List, ℕ, ◌∷◌, true, [], some, ◌+◌, arith, ◌*◌, refl, length, ◌≤◌, ok, ok_eq, ◌≡◌, ◌++◌,
}
use libmp.Write.Tables.{
  stts_write, chunks_write, stsz_write, stsc_write, is_co64, stss_write, stco_write, co64_write,
  write_table,
}
use libmp.Read.Tables.{stsz_read}
use libmp.Examples.Muxing.{params, mux}
use libmp.Read.Children.{fresh_track}
use libmp.Carry.Chunks.{chunk_bytes, chunks_read, with_chunks}
use libmp.Carry.Sizes.{with_sizes}
use libmp.Write.Headers.{mvhd_write, tkhd_write, container_write, container_loop}
use libmp.Read.Headers.{tkhd_read, mvhd_read, RawFile}
use libmp.Bytes.{words, be_32}
use libmp.Carry.TrackHeader.{with_header}
use libmp.Examples.Boxes.{nothing}
use libmp.Carry.Headers.{with_movie, movie_times}
use libmp.Write.Stbl.{stbl_write, stbl_write-bounded}
use libmp.Write.{write_words, write_each, write_bytes, fix_size}
use libmp.Carry.Whole.{stbl_size, with_tables}
use libmp.Carry.Stbl.{Storable}
use libmp.Read.Children.Loop.{children_read}
use libmp.Carry.Passes.{plain_env, with_raw}
use libmp.Read.Handler.{BoxType}
use libmp.Carry.Stored.{stbl_read-stbl_write}

abbrev pub three : MuxTrack
three = record (new_track params 1 128) {
  samples = record {
    entries =
        record { size = 5; decoding_time = 100; offset = 48 }
        ∷ record { size = 7; decoding_time = 110; offset = 53 }
        ∷ record { size = 9; decoding_time = 130; offset = 60 }
        ∷ [];
    capacity = 128;
  };
  chunks = record { entries = 48 ∷ 0x100000000 ∷ 60 ∷ []; capacity = 128 };
  sync = record { entries = 1 ∷ 3 ∷ []; capacity = 128 };
  time_to_sample = record {
    entries =
        record { sample_count = 1; sample_delta = 10 }
        ∷ record { sample_count = 2; sample_delta = 20 }
        ∷ [];
    capacity = 128;
  };
}

abbrev pub front : List ℕ
front = 1 ∷ 2 ∷ 3 ∷ []

abbrev pub back : List ℕ
back = 4 ∷ []

stsz_read-stsz_write_example :
    ReadBack
      (stsz_write 100 0x7374737a three)
      24
      (λ pread body c. stsz_read pread true body fresh_track c)
      (with_sizes fresh_track (5 ∷ 7 ∷ 9 ∷ []))
      front
      back
stsz_read-stsz_write_example =
    stsz_read-stsz_write front back three fresh_track 100 0x7374737a (omega arith) (omega arith)
      (omega arith, (omega arith, (omega arith, tt))) (omega arith) refl

chunks_read-chunks_write_example :
    ReadBack
      (chunks_write 100 three)
      (8 + chunk_bytes three * 3)
      (chunks_read three fresh_track)
      (with_chunks three fresh_track 100)
      front
      back
unfolding is_co64
chunks_read-chunks_write_example =
    chunks_read-chunks_write front back three fresh_track 100 0 (omega arith) (omega arith)
      (omega arith, (omega arith, (omega arith, tt))) (omega arith) refl

mvhd_read-mvhd_write_example :
    ReadBack
      (mvhd_write 200 0x6d766864 3 4 mux)
      112
      (λ pread body c. mvhd_read pread body nothing c)
      (with_movie nothing (movie_times 3 4 mux))
      front
      back
mvhd_read-mvhd_write_example =
    mvhd_read-mvhd_write front back mux 3 4 nothing 200 0x6d766864
      record {
        created = omega arith;
        modified = omega arith;
        ticks = omega arith;
        small = omega arith;
        long = omega arith;
      }
      (omega arith) (omega arith)

tkhd_read-tkhd_write_example :
    ReadBack
      (tkhd_write 200 0x746b6864 640 480 three)
      96
      (λ pread body c. tkhd_read pread 90000 body fresh_track c)
      (with_header fresh_track three)
      front
      back
tkhd_read-tkhd_write_example =
    tkhd_read-tkhd_write front back three fresh_track 200 0x746b6864 640 480 90000
      record {
        created = omega arith;
        modified = omega arith;
        named = omega arith;
        long = omega arith;
      }
      (omega arith) (omega arith)

abbrev blank_stbl : List ℕ
blank_stbl = words (36 ∷ 0x7374626c ∷ 28 ∷ 0x73747363 ∷ 0 ∷ 1 ∷ 1 ∷ 1 ∷ 1 ∷ [])

blank_stbl_written : stbl_write 400 (λ m. ok []) (new_track params 1 128) ≡ ok blank_stbl
unfolding stbl_write container_write container_loop stts_write stss_write stsc_write stsz_write
    chunks_write stco_write co64_write is_co64 write_table write_words write_each write_bytes
    fix_size words be_32
blank_stbl_written = refl

stbl_write-bounded_example : length blank_stbl ≤ 400
stbl_write-bounded_example =
    stbl_write-bounded 400 (λ m. ok []) (new_track params 1 128) blank_stbl
      (λ m child e. let q = ok_eq e in rw (← q) (omega arith)) blank_stbl_written

three-Storable : Storable three
three-Storable = record {
  any_times = omega arith;
  few_times = omega arith;
  small_times = ((omega arith, (omega arith, tt)), ((omega arith, (omega arith, tt)), tt));
  any_syncs = omega arith;
  few_syncs = omega arith;
  small_syncs = (omega arith, (omega arith, tt));
  any_chunks = omega arith;
  few_chunks = omega arith;
  small_chunks = ((omega arith, (omega arith, (omega arith, tt))), tt);
  any_samples = omega arith;
  few_samples = omega arith;
  small_samples = (omega arith, (omega arith, (omega arith, tt)));
  any_offsets = omega arith;
  few_offsets = omega arith;
  small_offsets = (omega arith, (omega arith, (omega arith, tt)));
}

abbrev pub one_track : RawFile
one_track = record nothing { tracks = fresh_track ∷ [] }

abbrev pub stsd_box : List ℕ
stsd_box = words (12 ∷ 0x73747364 ∷ 0 ∷ [])

stbl_read-stbl_write_example :
    (bytes : List ℕ) × (stbl_write 200 (λ m. ok stsd_box) three ≡ ok bytes)
    × (length bytes ≡ stbl_size three 12)
    × (children_read 8
          (plain_env (front ++ (bytes ++ back)))
          (BoxType.minf ∷ [])
          (some 0)
          (length bytes)
          (with_raw one_track 0 fresh_track)
          3
          0
          true
        ≡ some (
            ok record {
              file = with_raw one_track 0 (with_tables fresh_track three);
              count = length bytes;
              offset = 3 + length bytes;
            }))
unfolding words be_32 is_co64
stbl_read-stbl_write_example =
    stbl_read-stbl_write three fresh_track one_track 0 (BoxType.minf ∷ []) stsd_box (0 ∷ []) 200
      three-Storable
      record { times = refl; syncs = refl; chunks = refl; sizes = refl; offsets = refl }
      (omega arith) refl refl (omega arith) (omega arith) (omega arith) front back
