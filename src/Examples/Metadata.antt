-- ===== src/Examples/Metadata.antt =====
-- Runs of the writers of the metadata, on one entry of each storage and a cover.
use libmp.Write.Metadata.{
  MetadataInfo, CoverType, meta_write, meta_udta_write, udta_entry_write, keys_write, keys_loop,
  ilst_write, entries, cover_of, stored_in, same_storage, entry_write, raw_entry_write, entry_head,
  entry_size, mdat_write,
}
use libmp.Write.Headers.{container_loop}
use libmp.Demux.Info.{validate_str_len, strnlen}
use libmp.Write.{write_words, write_bytes, write_run, fix_size, zeroes}
use libmp.Bytes.{words, be_32, be_16}
use libmp.Mux.{MuxMetadata, Storage}
use libmp.Prelude.{◌≡◌, ◌∷◌, [], ok, err, enospc, refl, ◌++◌}

abbrev position : MuxMetadata
position = record {
  key = 0xa9 ∷ 120 ∷ 121 ∷ 122 ∷ [];
  value = 101 ∷ [];
  storage = Storage.udta_root;
}

abbrev info : MetadataInfo
info = record {
  metadatas =
      record { key = 97 ∷ 98 ∷ []; value = 99 ∷ []; storage = Storage.meta }
      ∷ position
      ∷ record { key = 0xa9 ∷ 110 ∷ 97 ∷ 109 ∷ []; value = 100 ∷ []; storage = Storage.udta }
      ∷ [];
  cover = 7 ∷ [];
  cover_type = CoverType.jpeg;
}

-- A key and its value in `meta`
meta_run :
    (meta_write 0x6d657461 info 100
      ≡ ok (
          words (100 ∷ 0x6d657461 ∷ 33 ∷ 0x68646c72 ∷ 0 ∷ 0 ∷ 0x6d647461 ∷ [])
          ++ zeroes 13
          ++ words (26 ∷ 0x6b657973 ∷ 0 ∷ 1 ∷ 10 ∷ 0x6d647461 ∷ [])
          ++ (97 ∷ 98 ∷ [])
          ++ words (33 ∷ 0x696c7374 ∷ 25 ∷ 1 ∷ 17 ∷ 0x64617461 ∷ 1 ∷ 0 ∷ [])
          ++ (99 ∷ [])))
    × (meta_write 0x6d657461 info 99 ≡ err enospc)
unfolding meta_write keys_write keys_loop ilst_write entries cover_of stored_in same_storage
    entry_write raw_entry_write entry_head entry_size container_loop validate_str_len strnlen
    write_words write_bytes write_run fix_size words be_32 be_16
meta_run = (refl, refl)

-- The entry of `udta` and the cover in the `meta` of `udta`
meta_udta_run :
    meta_udta_write 0x6d657461 info 103
    ≡ ok (
        words
          (103 ∷ 0x6d657461 ∷ 0 ∷ 33 ∷ 0x68646c72 ∷ 0 ∷ 0x6d686c72 ∷ 0x6d646972 ∷ 0x6170706c ∷ [])
        ++ zeroes 9
        ++ words (58 ∷ 0x696c7374 ∷ 25 ∷ 0xa96e616d ∷ 17 ∷ 0x64617461 ∷ 1 ∷ 0 ∷ [])
        ++ (100 ∷ [])
        ++ words (25 ∷ 0x636f7672 ∷ 17 ∷ 0x64617461 ∷ 13 ∷ 0 ∷ [])
        ++ (7 ∷ []))
unfolding meta_udta_write ilst_write entries cover_of stored_in same_storage entry_write
    raw_entry_write entry_head entry_size container_loop validate_str_len strnlen write_words
    write_bytes write_run fix_size words be_32 be_16
meta_udta_run = refl

-- The position stands without an inner box.
udta_entry_run :
    udta_entry_write position 13
    ≡ ok (words (13 ∷ 0xa978797a ∷ []) ++ (0 ∷ 1 ∷ 0x55 ∷ 0xc4 ∷ 101 ∷ []))
unfolding udta_entry_write entry_write raw_entry_write entry_head entry_size validate_str_len
    strnlen write_bytes write_run fix_size words be_32 be_16
udta_entry_run = refl

-- A size of 32 bits, and one of 64 bits
mdat_run :
    (mdat_write 0xffffffff ≡ ok (words (8 ∷ 0x66726565 ∷ 0xffffffff ∷ 0x6d646174 ∷ [])))
    × (mdat_write 0x100000000 ≡ ok (words (1 ∷ 0x6d646174 ∷ 1 ∷ 8 ∷ [])))
unfolding mdat_write write_words write_bytes words be_32
mdat_run = (refl, refl)
