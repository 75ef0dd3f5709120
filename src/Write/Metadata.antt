-- ===== src/Write/Metadata.antt =====
-- src/mp4_box_writer.c: the writers of the boxes of the metadata (the entries of `udta`, `keys`, `ilst`
-- and both forms of `meta`), and of the head of `mdat`.
use libmp.Prelude.{
  ℕ, List, Res, ◌+◌, ◌∷◌, ◌%◌, ◌>>=◌, ◌^◌, ◌/◌, ok, some, [], length, ◌++◌, ◌-◌, Bool, true, false,
  suc, leb, take, if◌then◌else◌,
}
use libmp.Bytes.{be_32, be_16}
use libmp.Mux.{MuxMetadata, Storage}
use libmp.Write.{write_words, write_run, zeroes, fix_size}
use libmp.Write.Headers.{Writer, container_loop}
use libmp.Demux.Info.{validate_str_len, name_max, metadata_value_max}

-- `enum mp4_metadata_cover_type`; `other` is any value that the enumeration does not name.
pub data CoverType : Type 0 where
  unknown jpeg png bmp other : CoverType

-- `struct mp4_mux_metadata_info`; a cover that is NULL has no bytes.
pub record MetadataInfo : Type 0 where
  pub metadatas : List MuxMetadata
  pub cover : List ℕ
  pub cover_type : CoverType

-- The bytes of a string that are written
abbrev pub valid : ℕ → List ℕ → List ℕ
valid max_len s = take (validate_str_len (some s) max_len) s

unfoldable pub same_storage : Storage → Storage → Bool
same_storage Storage.meta Storage.meta = true
same_storage Storage.udta Storage.udta = true
same_storage Storage.udta_root Storage.udta_root = true
same_storage s t = false

-- The values of an entry, with the length of its data and its index: under `udta` without the inner
-- box. A key that is not in `meta` has 4 bytes.
unfoldable pub entry_head : Storage → List ℕ → ℕ → ℕ → ℕ → List (List ℕ)
entry_head Storage.udta_root key type index len =
    be_32 (12 + len) ∷ take 4 key ∷ be_16 len ∷ be_16 0x55c4 ∷ []
entry_head Storage.meta key type index len =
    be_32 (24 + len) ∷ be_32 index ∷ be_32 (16 + len) ∷ be_32 0x64617461 ∷ be_32 type ∷ be_32 0 ∷ []
entry_head Storage.udta key type index len =
    be_32 (24 + len) ∷ take 4 key ∷ be_32 (16 + len) ∷ be_32 0x64617461 ∷ be_32 type ∷ be_32 0 ∷ []

unfoldable pub entry_size : Storage → ℕ → ℕ
entry_size Storage.udta_root len = 12 + len
entry_size storage len = 24 + len

-- `mp4_box_write_meta_raw_entry`
unfoldable pub raw_entry_write : List ℕ → ℕ → List ℕ → Storage → ℕ → ℕ → Res (List ℕ)
raw_entry_write key type bytes storage index max_bytes = do
  out ← write_run max_bytes (entry_head storage key type index (length bytes) ++ (bytes ∷ [])) []
  ok (fix_size (entry_size storage (length bytes)) out)

-- `mp4_box_write_meta_entry`
unfoldable pub entry_write : MuxMetadata → Storage → ℕ → ℕ → Res (List ℕ)
entry_write m storage index max_bytes =
    raw_entry_write m.key 1 (valid metadata_value_max m.value) storage index max_bytes

-- `mp4_box_udta_entry_write`
unfoldable pub udta_entry_write : MuxMetadata → ℕ → Res (List ℕ)
udta_entry_write m max_bytes = entry_write m Storage.udta_root 0 max_bytes

-- The metadata with a storage
unfoldable pub stored_in : Storage → List MuxMetadata → List MuxMetadata
stored_in storage [] = []
stored_in storage (m ∷ ms) =
    let rest = stored_in storage ms in if same_storage m.storage storage then m ∷ rest else rest

-- The values of one round of the second loop of `mp4_box_keys_write`
abbrev pub key_entry : MuxMetadata → List (List ℕ)
key_entry m =
    be_32 (length (valid name_max m.key) + 8) ∷ be_32 0x6d647461 ∷ valid name_max m.key ∷ []

unfoldable pub keys_loop : ℕ → List MuxMetadata → List ℕ → Res (List ℕ)
keys_loop max_bytes [] out = ok out
keys_loop max_bytes (m ∷ ms) out = write_run max_bytes (key_entry m) out >>= keys_loop max_bytes ms

-- `mp4_box_keys_write`
unfoldable pub keys_write : MetadataInfo → ℕ → Res (List ℕ)
keys_write info max_bytes =
    let ms = stored_in Storage.meta info.metadatas in
    do
      out ← write_words max_bytes (0 ∷ 0x6b657973 ∷ 0 ∷ length ms ∷ []) []
      out ← keys_loop max_bytes ms out
      ok (fix_size 0 out)

-- The entries, with their indices from the one after `index` on
unfoldable pub entries : Storage → ℕ → List MuxMetadata → List Writer
entries storage index [] = []
entries storage index (m ∷ ms) =
    some (entry_write m storage (suc index)) ∷ entries storage (suc index) ms

abbrev pub class_of : CoverType → ℕ
class_of CoverType.jpeg = 13
class_of CoverType.png = 14
class_of CoverType.bmp = 27
class_of kind = 0

unfoldable pub cover_of : Storage → CoverType → List ℕ → ℕ → List Writer
cover_of storage CoverType.unknown bytes index = []
cover_of storage kind [] index = []
cover_of Storage.udta kind bytes index =
    some (raw_entry_write (99 ∷ 111 ∷ 118 ∷ 114 ∷ []) (class_of kind) bytes Storage.udta index) ∷ []
cover_of storage kind bytes index = []

-- `mp4_box_ilst_write`
unfoldable pub ilst_write : MetadataInfo → Storage → ℕ → Res (List ℕ)
ilst_write info storage max_bytes =
    let ms = stored_in storage info.metadatas in
    do
      out ← write_words max_bytes (0 ∷ 0x696c7374 ∷ []) []
      out ← container_loop max_bytes (entries storage 0 ms) out
      out ← container_loop max_bytes (cover_of storage info.cover_type info.cover (length ms)) out
      ok (fix_size 0 out)

-- `mp4_box_meta_udta_write`
unfoldable pub meta_udta_write : ℕ → MetadataInfo → ℕ → Res (List ℕ)
meta_udta_write kind info max_bytes = do
  out ←
      write_words max_bytes
        (0 ∷ kind ∷ 0 ∷ 33 ∷ 0x68646c72 ∷ 0 ∷ 0x6d686c72 ∷ 0x6d646972 ∷ 0x6170706c ∷ []) []
  out ← write_run max_bytes (zeroes 9 ∷ []) out
  out ← container_loop max_bytes (some (ilst_write info Storage.udta) ∷ []) out
  ok (fix_size 0 out)

-- `mp4_box_meta_write`
unfoldable pub meta_write : ℕ → MetadataInfo → ℕ → Res (List ℕ)
meta_write kind info max_bytes = do
  out ← write_words max_bytes (0 ∷ kind ∷ 33 ∷ 0x68646c72 ∷ 0 ∷ 0 ∷ 0x6d647461 ∷ []) []
  out ← write_run max_bytes (zeroes 13 ∷ []) out
  out ←
      container_loop max_bytes (some (keys_write info) ∷ some (ilst_write info Storage.meta) ∷ [])
        out
  ok (fix_size 0 out)

-- `mp4_box_mdat_write`: a size that takes 64 bits leaves no room for the box `free` in front.
unfoldable pub mdat_write : ℕ → Res (List ℕ)
mdat_write size =
    if leb size (2 ^ 32 - 1)
    then write_words (2 ^ 32 - 1) (8 ∷ 0x66726565 ∷ size ∷ 0x6d646174 ∷ []) []
    else (let wide = (size + 8) % 2 ^ 64 in
        write_words (2 ^ 32 - 1) (1 ∷ 0x6d646174 ∷ wide / 2 ^ 32 ∷ wide % 2 ^ 32 ∷ []) [])
