-- ===== src/Media/Packets.antt =====
-- shared/media/include/smartmic/media/media_packet.h: the header of a media packet, in memory order on
-- a little-endian machine.
pub mod RoundTrip
use smartmic_windows.Prelude.{
  ℕ, ◌%◌, ◌/◌, Bool, true, false, List, [], ◌∷◌, ◌++◌, Option, none, some, length, take, drop, ltb,
  ◌==◌, if◌then◌else◌,
}
use smartmic_windows.Media.Bytes.{le_bytes, le_value}

abbrev pub media_version : ℕ
media_version = 1

abbrev pub header_bytes : ℕ
header_bytes = 12

pub record MediaHeader : Type 0 where
  pub version : ℕ
  pub flags : ℕ
  pub reserved : ℕ
  pub seq : ℕ
  pub timestamp_samples : ℕ

-- The bits of MediaFlags.
abbrev pub flags_of : Bool → Bool → ℕ
flags_of true true = 3
flags_of true false = 1
flags_of false true = 2
flags_of false false = 0

-- `flags & kFlagMarker`.
abbrev pub has_marker : ℕ → Bool
has_marker flags = flags / 2 % 2 == 1

-- `writeHeader`: what it appends.
unfoldable pub write_header : MediaHeader → List ℕ
write_header h =
    le_bytes 1 h.version
    ++ (le_bytes 1 h.flags
        ++ (le_bytes 2 h.reserved ++ (le_bytes 4 h.seq ++ le_bytes 4 h.timestamp_samples)))

abbrev pub parse_header : List ℕ → MediaHeader
parse_header bytes = record {
  version = le_value (take 1 bytes);
  flags = le_value (take 1 (drop 1 bytes));
  reserved = le_value (take 2 (drop 2 bytes));
  seq = le_value (take 4 (drop 4 bytes));
  timestamp_samples = le_value (take 4 (drop 8 bytes));
}

-- `readHeader`: `none` where it returns false.
unfoldable pub read_header : List ℕ → Option MediaHeader
read_header bytes =
    if ltb (length bytes) header_bytes
    then none
    else if (parse_header bytes).version == media_version
    then some (parse_header bytes)
    else none
