-- ===== src/Lib.antt =====
-- libmp4, an MP4 file library in C: the tables of a track, from the muxer that keeps them to the
-- demuxer that searches them.
--
-- A muxer (src/mp4_mux.c) appends samples to the file and keeps, for each track, the tables of
-- sample sizes, times, offsets, chunks and sync samples; when it writes the boxes it computes the
-- time-to-sample table and orders the tracks. A demuxer (src/mp4_demux.c) has a reader fill a
-- `struct mp4_file` with tracks and their raw tables, builds from them the offset and the time of
-- each sample (src/mp4_track.c), and answers seeks and reads by searching the times. Both use the
-- time conversions of include/libmp4.h.
--
-- Which file models which part:
--   Prelude   library names, Boolean tests, lists, C's integers, and `Res`: `err` is a negative
--             errno value, and `fault` a run that C gives no value: an access outside an array, a
--             signed sum that overflows, or a division by zero
--   Types     the enumerations and the records of table entries (include/libmp4.h,
--             src/mp4_priv.h)
--   Track     src/mp4_track.c, `mp4_track_is_sync_sample` to `mp4_track_find_sample_by_time`
--   Build     src/mp4_track.c, one round of `mp4_tracks_build`: the checks of the counts, the
--             offsets and the times of the samples
--   File      src/mp4_track.c, `mp4_track_add`, `mp4_track_remove`, the three find functions, the
--             links between tracks, and in File/Chapters the chapter list and all of
--             `mp4_tracks_build`
--   Time      include/libmp4.h, the three conversions
--   Demux     src/mp4_demux.c: `mp4_demux_seek`, the seeks to a next or previous sample and the
--             times of samples; Demux/Sample `mp4_demux_get_track_sample`; Demux/Info
--             `mp4_metadata_build`, the cover and the media information
--   Mux       src/mp4_mux.c: Mux/Grow the growth of the tables, Mux/Tts
--             `mp4_mux_track_compute_tts`, Mux/Sample adding tracks, references and samples,
--             Mux/Sort `mp4_mux_sort_tracks`, Mux/Metadata adding metadata
--   Bytes     words in network order
--   Write     src/mp4_box_writer.c and the macros MP4_WRITE_* of src/mp4_priv.h: the containers,
--             the headers, the tables of a track, the metadata; Write/Stbl the sample table box that
--             `mp4_mux_sync_internal` makes
--   Read      src/mp4_box_reader.c and the macros MP4_READ_*: Read/Tables the tables, Read/Headers
--             and Read/Handler the headers, Read/Children `mp4_box_children_read`
--   Carry     the muxer's tables as the demuxer's, in memory and by way of the bytes of the boxes
--   Examples  concrete tracks and files
--
-- A C array is a list, and a pointer to a track its address. Unsigned arithmetic wraps around as it
-- is written in C. An `int` that a function gets stays in range where it is an index of a sample,
-- since a track with 2^31 samples does not fit the tables of the reader. What the system answers is
-- a parameter: whether `malloc` gives memory, what `lseek`, `read` and `writev` answer. A loop
-- recurses on the rounds it has left, which is the number of elements that it can visit: the samples
-- from the start on in a search, the samples of the track in the seek, the entries of a table in the
-- build. The growth of a table recurses on the elements that are missing, since each round adds 128.
-- The reader of the boxes recurses on fuel, which one box takes for its children and for what comes
-- behind it: more than the bytes of the box is enough, since each box takes 8 of them or more.
--
-- Not modelled: the sample descriptions (stsd) with the decoder configurations, the readers of the
-- metadata boxes (data, .xyz, keys, ilst's count of entries), which are a parameter of Read/Children,
-- and the writers of stsd and free; the recovery of broken files
-- (src/mp4_recovery*.c); the JSON dump; opening, closing and freeing. The tree of the boxes, which
-- only the log and the dump use, is not kept. The reader takes `lseek` to succeed. A `strdup` that
-- fails in the metadata of the muxer is not modelled either.
pub mod Prelude
pub mod Types
pub mod Track
pub mod Build
pub mod Bytes
pub mod Time
pub mod Mux
pub mod File
pub mod Demux
pub mod Write
pub mod Read
pub mod Carry
pub mod Examples
