-- ===== src/Media/Packets/RoundTrip.antt =====
-- media_packet.h: what is written is read back.
use smartmic_windows.Prelude.{
  ℕ, ◌<◌, ◌^◌, ◌≡◌, refl, ap, ◌∙◌, true, false, List, ◌++◌, some, arith, length, drop, ltb, ◌==◌,
  le→ltb, ==_iff,
}
use smartmic_windows.Media.Bytes.{le_value-le_bytes}
use smartmic_windows.Media.Packets.{
  MediaHeader, write_header, read_header, parse_header, header_bytes,
}

-- The version is the current one and the fields have their widths.
pub record IsValid (h : MediaHeader) : Type 0 where
  pub current : h.version ≡ 1
  pub flags_byte : h.flags < 2 ^ 8
  pub reserved_half : h.reserved < 2 ^ 16
  pub seq_word : h.seq < 2 ^ 32
  pub timestamp_word : h.timestamp_samples < 2 ^ 32

parse_header-write_header :
    (h : MediaHeader) (payload : List ℕ) → IsValid h → parse_header (write_header h ++ payload) ≡ h
unfolding write_header
parse_header-write_header h payload v i = record {
  version = le_value-le_bytes 1 h.version (omega (arith, v.current)) i;
  flags = le_value-le_bytes 1 h.flags (omega (arith, v.flags_byte)) i;
  reserved = le_value-le_bytes 2 h.reserved (omega (arith, v.reserved_half)) i;
  seq = le_value-le_bytes 4 h.seq (omega (arith, v.seq_word)) i;
  timestamp_samples = le_value-le_bytes 4 h.timestamp_samples (omega (arith, v.timestamp_word)) i;
}

length-write_header :
    (h : MediaHeader) (payload : List ℕ)
    → ltb (length (write_header h ++ payload)) header_bytes ≡ false
unfolding write_header
length-write_header h payload =
    le→ltb (length (write_header h ++ payload)) header_bytes (omega arith)

drop-write_header :
    (h : MediaHeader) (payload : List ℕ) → drop header_bytes (write_header h ++ payload) ≡ payload
unfolding write_header
drop-write_header h payload = refl

-- A valid header that is written in front of a payload is read back as it was, and the payload starts
-- right behind it.
pub read_header-write_header :
    (h : MediaHeader) (payload : List ℕ)
    → IsValid h
    → (read_header (write_header h ++ payload) ≡ some h)
      × (drop header_bytes (write_header h ++ payload) ≡ payload)
unfolding read_header
read_header-write_header h payload v = (read, behind)
  where
    same : parse_header (write_header h ++ payload) ≡ h
    same = parse_header-write_header h payload v

    current : ((parse_header (write_header h ++ payload)).version == 1) ≡ true
    current =
        (==_iff (parse_header (write_header h ++ payload)).version 1).1
          (ap (λ k. k.version) same ∙ v.current)

    read : read_header (write_header h ++ payload) ≡ some h
    read = rw (length-write_header h payload, current) (ap some same)

    behind : drop header_bytes (write_header h ++ payload) ≡ payload
    behind = drop-write_header h payload
