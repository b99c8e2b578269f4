-- ===== src/Media/PhoneSource/Heard.antt =====
-- phone_media_source.cpp: what the phone packs, the PC's source takes.
use smartmic_windows.Prelude.{
  ℕ, ◌-◌, ◌^◌, ◌<◌, ◌≡◌, ◌≢◌, refl, ap, ◌∙◌, Bool, true, false, List, [], ◌∷◌, ◌++◌, some, arith,
  length, drop, length-drop, if◌then◌else◌, ◌==◌, ne→eqb,
}
use smartmic_windows.Media.JitterBuffer.{Estimator, Decoder}
use smartmic_windows.Media.JitterBuffer
use smartmic_windows.Media.Packets.{
  MediaHeader, read_header, write_header, flags_of, has_marker, header_bytes, media_version,
}
use smartmic_windows.Media.Packets.RoundTrip
use smartmic_windows.Media.Packets.RoundTrip.{read_header-write_header}
use smartmic_windows.Media.PhoneSource.{
  Encoder, MediaSender, PhoneMediaSource, pack_frame, pack_encoded, on_media_payload, on_header,
}

has_marker-flags_of : (ptt marker : Bool) → has_marker (flags_of ptt marker) ≡ marker
has_marker-flags_of true true = refl
has_marker-flags_of true false = refl
has_marker-flags_of false true = refl
has_marker-flags_of false false = refl

flags_small : (ptt marker : Bool) → flags_of ptt marker < 256
flags_small ptt marker = ground arith

not_empty :
    (bytes opus : List ℕ)
    → drop header_bytes bytes ≡ opus
    → opus ≢ []
    → (length bytes - header_bytes == 0) ≡ false
not_empty bytes [] behind some_bytes = ground (arith, some_bytes)
not_empty bytes (b ∷ bs) behind some_bytes =
    ne→eqb (length bytes - header_bytes) 0
      (omega (arith, length-drop header_bytes bytes, ap length behind))

module _ (enc : Encoder) (est : Estimator) (dec : Decoder) where
  -- The source after a frame of the sender `s` has arrived.
  abbrev pub heard :
      MediaSender enc → List ℕ → ℕ → PhoneMediaSource est dec → PhoneMediaSource est dec
  heard s opus now src =
      let b = if s.marker then JitterBuffer.reset est src.buffer else src.buffer in
      record src { last_packet_ms = now; buffer = JitterBuffer.push est s.seq opus now b }

  abbrev header_of : MediaSender enc → Bool → MediaHeader
  header_of s ptt = record {
    version = media_version;
    flags = flags_of ptt s.marker;
    reserved = 0;
    seq = s.seq;
    timestamp_samples = s.timestamp;
  }

  taken :
      (s : MediaSender enc) (opus packet : List ℕ) (now : ℕ) (ptt : Bool)
      (src : PhoneMediaSource est dec)
      → drop header_bytes packet ≡ opus
      → (length packet - header_bytes == 0) ≡ false
      → on_header est dec (some (header_of s ptt)) packet now src ≡ (true, heard s opus now src)
  unfolding on_header
  taken s opus packet now ptt src behind filled =
      simp (filled, behind, has_marker-flags_of ptt s.marker)

  -- A frame that the encoder turns into some bytes is packed by the phone, and the source takes the packet:
  -- its jitter buffer is given exactly those bytes under the phone's sequence number, after a reset where
  -- the phone marked the first frame of a stretch, and nothing counts as malformed.
  pub on_media_payload-pack_frame :
      (pcm : List enc.Sample) (ptt : Bool) (now : ℕ) (opus : List ℕ) (e : enc.E)
      (s : MediaSender enc) (src : PhoneMediaSource est dec)
      → enc.encode pcm s.encoder ≡ (some opus, e)
      → opus ≢ []
      → s.seq < 2 ^ 32
      → s.timestamp < 2 ^ 32
      → (packet : List ℕ) × ((pack_frame enc pcm ptt s).0 ≡ some packet)
        × (on_media_payload est dec packet now src ≡ (true, heard s opus now src))
  unfolding pack_frame on_media_payload
  on_media_payload-pack_frame pcm ptt now opus e s src encoded some_bytes seq_word time_word =
      (packet, ap (λ r. (pack_encoded enc r (length pcm) ptt s).0) encoded, arrives)
    where
      packet : List ℕ
      packet = write_header (header_of s ptt) ++ opus

      valid : RoundTrip.IsValid (header_of s ptt)
      valid = record {
        current = refl;
        flags_byte = flags_small ptt s.marker;
        reserved_half = omega arith;
        seq_word = seq_word;
        timestamp_word = time_word;
      }

      back : (read_header packet ≡ some (header_of s ptt)) × (drop header_bytes packet ≡ opus)
      back = read_header-write_header (header_of s ptt) opus valid

      arrives : on_media_payload est dec packet now src ≡ (true, heard s opus now src)
      arrives =
          ap (λ o. on_header est dec o packet now src) back.0
          ∙ taken s opus packet now ptt src back.1 (not_empty packet opus back.1 some_bytes)
