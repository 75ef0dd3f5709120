-- ===== src/Types.antt =====
-- The enumerations of include/libmp4.h and src/mp4_priv.h, and the records of one track's tables.
use libmp.Prelude.{ℕ}

-- `enum mp4_track_type`
pub data TrackType : Type 0 where
  unknown video audio hint metadata text chapters : TrackType

-- `enum mp4_time_cmp`; `other` is any value that the enumeration does not name.
pub data TimeCmp : Type 0 where
  exact nearest lt gt lt_eq gt_eq other : TimeCmp

-- `enum mp4_seek_method`, likewise
pub data SeekMethod : Type 0 where
  previous previous_sync nearest nearest_sync next next_sync other : SeekMethod

-- `struct mp4_time_to_sample_entry`
pub record TimeToSampleEntry : Type 0 where
  pub sample_count : ℕ
  pub sample_delta : ℕ

-- `struct mp4_sample_to_chunk_entry`
pub record SampleToChunkEntry : Type 0 where
  pub first_chunk : ℕ
  pub samples_per_chunk : ℕ
  pub sample_description_index : ℕ

-- MP4_MAC_TO_UNIX_EPOCH_OFFSET
abbrev pub mac_to_unix_epoch_offset : ℕ
mac_to_unix_epoch_offset = 0x7c25b080
