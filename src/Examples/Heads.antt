-- ===== src/Examples/Heads.antt =====
-- Runs of the writers of the smaller boxes, and of the reader on boxes of other kinds.
use libmp.Write.Headers.{
  hdlr_write, dref_write, name_or, tref_content_write, ftyp_write, vmhd_write, smhd_write,
  tref_loop, nmhd_write, empty_write, gmhd_write, gmin_write,
}
use libmp.Prelude.{
  List, ℕ, ◌∷◌, [], ◌++◌, ◌≡◌, ok, true, err, ◌>>=◌, enospc, einval, replicate, enoent, drop, some,
  refl, none, length,
}
use libmp.Read.{Cursor, read_be, read_64, advance, read_each, skip_rest}
use libmp.Read.Handler.{hdlr_read, name_loop, set_handler, box_type, BoxType}
use libmp.Read.Children.Loop.{children_read, box_read, skip_box}
use libmp.Bytes.{words, be_32, from_be, be_16}
use libmp.Read.Headers.{ftyp_read, vmhd_read, logged_read}
use libmp.Write.{write_words, write_bytes, fix_size, write_box, write_run}
use libmp.Mux.{track_find_by_handle, find_track, MuxTrack}
use libmp.Read.Holds.{file_pread}
use libmp.Read.Children.{
  read_head, check_head, read_size, real_size, check_off_t, fresh_track, body, meta_body, uuid_read,
  on_maybe,
}
use libmp.Examples.Muxing.{mux}
use libmp.Examples.Bytes.{three}
use libmp.Types.{TrackType}
use libmp.Demux.Info.{validate_str_len, strnlen}
use libmp.Examples.Boxes.{env, nothing}

media_heads_run :
    (vmhd_write 20 0x766d6864 ≡ ok (words (20 ∷ 0x766d6864 ∷ 1 ∷ 0 ∷ 0 ∷ [])))
    × (smhd_write 16 0x736d6864 ≡ ok (words (16 ∷ 0x736d6864 ∷ 0 ∷ 0 ∷ [])))
    × (nmhd_write 11 0x6e6d6864 ≡ err enospc)
    × (empty_write 8 0x66726565 ≡ ok (words (8 ∷ 0x66726565 ∷ [])))
    × (gmhd_write 32 0x676d6864
        ≡ ok (words (32 ∷ 0x676d6864 ∷ 24 ∷ 0x676d696e ∷ 0 ∷ 0x00408000 ∷ 0x80008000 ∷ 0 ∷ [])))
unfolding vmhd_write smhd_write nmhd_write empty_write gmhd_write gmin_write write_box write_run
    write_words write_bytes words be_32 be_16 fix_size
media_heads_run = (refl, refl, refl, refl, refl)

-- The references of a track to the tracks of handles 1 and 2
references_run :
    (tref_content_write 100 0x63647363 mux (record three { reference_track_handle = 2 ∷ 1 ∷ [] })
      ≡ ok (words (16 ∷ 0x63647363 ∷ 0 ∷ 0 ∷ [])))
    × (tref_content_write 100 0x63647363 mux (record three { reference_track_handle = 9 ∷ [] })
        ≡ err enoent)
unfolding tref_content_write tref_loop track_find_by_handle find_track write_words write_bytes words
    be_32 fix_size
references_run = (refl, refl)

abbrev start : Cursor
start = record { offset = 0; count = 0 }

-- What `ftyp` is written as is read to its end.
ftyp_run :
    (ftyp_write 32 >>= λ bytes. ftyp_read (file_pread (drop 8 bytes)) 24 start)
    ≡ ok record { offset = 24; count = 24 }
unfolding ftyp_write ftyp_read write_words write_bytes be_32 fix_size file_pread read_be from_be
    advance read_each skip_rest
ftyp_run = refl

-- A handler box of a video whose name is "ab"
hdlr_run :
    hdlr_read
      (file_pread (words (0 ∷ 0 ∷ 0x76696465 ∷ 0 ∷ 0 ∷ 0 ∷ []) ++ (97 ∷ 98 ∷ 0 ∷ 1 ∷ [])))
      true
      BoxType.mdia
      28
      (some fresh_track)
      start
    ≡ ok (
      some record fresh_track { kind = TrackType.video; name = some (97 ∷ 98 ∷ []) },
      record { offset = 28; count = 28 },
    )
unfolding hdlr_read name_loop set_handler file_pread words be_32 read_be from_be advance read_each
    skip_rest
hdlr_run = refl

-- A file whose `uuid` box has a large size, and whose `moov` box holds `meta` with a handler and
-- `udta` with `meta`
abbrev odd_file : List ℕ
odd_file =
    words (16 ∷ 0x66747970 ∷ 0x69736f6d ∷ 2 ∷ [])
    ++ words (1 ∷ 0x75756964 ∷ 0 ∷ 36 ∷ 1 ∷ 2 ∷ 3 ∷ 4 ∷ 5 ∷ [])
    ++ words (76 ∷ 0x6d6f6f76 ∷ 40 ∷ 0x6d657461 ∷ 32 ∷ 0x68646c72 ∷ 0 ∷ 0 ∷ 0x6d647461 ∷ [])
    ++ words (0 ∷ 0 ∷ 0 ∷ 28 ∷ 0x75647461 ∷ 20 ∷ 0x6d657461 ∷ 0 ∷ 8 ∷ 0x66726565 ∷ [])
    ++ words (20 ∷ 0x766d6864 ∷ 0 ∷ 0 ∷ 0 ∷ 16 ∷ 0x736d6864 ∷ 0 ∷ 0 ∷ [])

odd_run :
    children_read 400 (env odd_file) (BoxType.root ∷ []) none (length odd_file) nothing 0 0 true
    ≡ some (ok record { file = nothing; count = 164; offset = 164 })
unfolding children_read words be_32 read_head read_be read_64 file_pread advance check_head box_type
    from_be read_size real_size check_off_t box_read body meta_body ftyp_read read_each skip_box
    skip_rest uuid_read on_maybe hdlr_read name_loop set_handler vmhd_read logged_read
odd_run = refl

dref_run :
    dref_write 28 0x64726566 ≡ ok (words (28 ∷ 0x64726566 ∷ 0 ∷ 1 ∷ 12 ∷ 0x75726c20 ∷ 1 ∷ []))
unfolding dref_write write_box write_run write_bytes words be_32 fix_size
dref_run = refl

abbrev chapters : MuxTrack
chapters = record three { kind = TrackType.chapters }

-- The handler of a track of chapters, of its own name "ab" or of the one of its kind, which also
-- stands in for a name of 255 bytes; a hint track has no handler.
handlers_run :
    (hdlr_write 35 0x68646c72 (some (97 ∷ 98 ∷ [])) chapters
      ≡ ok (words (35 ∷ 0x68646c72 ∷ 0 ∷ 0 ∷ 0x74657874 ∷ 0 ∷ 0 ∷ 0 ∷ []) ++ (97 ∷ 98 ∷ 0 ∷ [])))
    × (hdlr_write 41 0x68646c72 (some (replicate 255 97)) chapters
        ≡ ok (
            words (41 ∷ 0x68646c72 ∷ 0 ∷ 0 ∷ 0x74657874 ∷ 0 ∷ 0 ∷ 0 ∷ 0x43686170 ∷ 0x74657273 ∷ [])
            ++ (0 ∷ [])))
    × (hdlr_write 34 0x68646c72 (some (97 ∷ 98 ∷ [])) chapters ≡ err enospc)
    × (hdlr_write 99 0x68646c72 none (record three { kind = TrackType.hint }) ≡ err einval)
unfolding hdlr_write name_or validate_str_len strnlen write_box write_run write_bytes words be_32
    fix_size
handlers_run = (refl, refl, refl, refl)
