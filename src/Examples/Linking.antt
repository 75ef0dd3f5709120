-- ===== src/Examples/Linking.antt =====
-- A file whose tracks refer to each other: a video, its metadata and its chapters.
use libmp.File.{Mp4File}
use libmp.Types.{TrackType}
use libmp.Prelude.{◌∷◌, [], none, some}
use libmp.Examples.{read_track, played}

abbrev referring_file : Mp4File
referring_file = record {
  tracks =
      record read_track {
        metadata = none;
        reference_type = 0x63686170;
        reference_track_id = 8 ∷ [];
      }
      ∷ record read_track {
        addr = 2;
        id = 7;
        kind = TrackType.metadata;
        metadata = none;
        reference_type = 0x63647363;
        reference_track_id = 1 ∷ [];
      }
      ∷ record read_track { addr = 3; id = 8; kind = TrackType.text; metadata = none }
      ∷ [];
  track_count = 3;
  timescale = 1000;
  duration = 25;
  creation_time = 0;
  modification_time = 0;
  chapters = [];
}

-- The chapter track is linked to the video, and the video to its metadata.
abbrev referred_file : Mp4File
referred_file = record referring_file {
  tracks =
      record played {
        reference_type = 0x63686170;
        reference_track_id = 8 ∷ [];
        metadata = some 2;
        chapters = some 3;
      }
      ∷ record played {
        addr = 2;
        id = 7;
        kind = TrackType.metadata;
        metadata = none;
        reference_type = 0x63647363;
        reference_track_id = 1 ∷ [];
      }
      ∷ record played { addr = 3; id = 8; kind = TrackType.chapters; metadata = none }
      ∷ [];
  chapters = (0, []) ∷ (10000, []) ∷ (20000, []) ∷ [];
}
