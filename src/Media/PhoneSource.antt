-- ===== src/Media/PhoneSource.antt =====
-- shared/media/src/phone_media_source.cpp and phone_media_source.h: the receiver behind the router's
-- phone source, and the sender on the phone. The Opus encoder and decoder are parameters; whether the
-- decoder opens is an argument.
pub mod Heard
use smartmic_windows.Prelude.{
  ℕ, ◌-◌, Bool, true, false, ◌&&◌, not, List, ◌++◌, Option, none, some, length, drop, replicate,
  ◌==◌, if◌then◌else◌, add32, add64,
}
use smartmic_windows.Audio.Io.{SourceStatus}
use smartmic_windows.Media.JitterBuffer.{Estimator, Decoder, JitterBuffer, Popped}
use smartmic_windows.Media.JitterBuffer
use smartmic_windows.Media.Packets.{
  MediaHeader, read_header, write_header, flags_of, has_marker, header_bytes, media_version,
}

-- `OpusEncoderWrapper`.
pub record Encoder : Type 1 where
  pub E : Type 0
  pub Sample : Type 0
  pub encode : List Sample → E → Option (List ℕ) × E

module _ (enc : Encoder) where
  pub record MediaSender : Type 0 where
    pub encoder : enc.E
    pub seq : ℕ
    pub timestamp : ℕ
    pub marker : Bool

  unfoldable pub open_sender : enc.E → MediaSender → MediaSender
  open_sender encoder s = record s { encoder = encoder; seq = 0; timestamp = 0; marker = true }

  unfoldable pub reset_sender : MediaSender → MediaSender
  reset_sender s = record s { marker = true }

  -- `packFrame` once the encoder has answered.
  unfoldable pub pack_encoded :
      Option (List ℕ) × enc.E → ℕ → Bool → MediaSender → Option (List ℕ) × MediaSender
  pack_encoded (none, e) samples ptt s = (none, record s { encoder = e })
  pack_encoded (some opus, e) samples ptt s =
      let h : MediaHeader = record {
        version = media_version;
        flags = flags_of ptt s.marker;
        reserved = 0;
        seq = s.seq;
        timestamp_samples = s.timestamp;
      } in
      (
        some (write_header h ++ opus),
        record s {
          encoder = e;
          seq = add32 s.seq 1;
          timestamp = add32 s.timestamp samples;
          marker = false;
        },
      )

  unfoldable pub pack_frame : List enc.Sample → Bool → MediaSender → Option (List ℕ) × MediaSender
  unfolding pack_encoded
  pack_frame pcm ptt s = pack_encoded (enc.encode pcm s.encoder) (length pcm) ptt s

module _ (est : Estimator) (dec : Decoder) where
  pub record PhoneMediaSource : Type 0 where
    pub buffer : JitterBuffer est
    pub decoder : dec.D
    pub started : Bool
    pub malformed : ℕ
    pub last_packet_ms : ℕ

  unfoldable pub start : Option dec.D → PhoneMediaSource → Bool × PhoneMediaSource
  start none s = (false, s)
  start (some d) s =
      (true, record s { decoder = d; buffer = JitterBuffer.reset est s.buffer; started = true })

  unfoldable pub stop : PhoneMediaSource → PhoneMediaSource
  stop s = record s { started = false; buffer = JitterBuffer.reset est s.buffer }

  unfoldable pub reset_stream : PhoneMediaSource → PhoneMediaSource
  reset_stream s = record s { buffer = JitterBuffer.reset est s.buffer }

  abbrev refused : PhoneMediaSource → Bool × PhoneMediaSource
  refused s = (false, record s { malformed = add64 s.malformed 1 })

  -- `onMediaPayload` once the header has or has not been read.
  unfoldable pub on_header :
      Option MediaHeader → List ℕ → ℕ → PhoneMediaSource → Bool × PhoneMediaSource
  on_header none bytes now s = refused s
  on_header (some h) bytes now s =
      if length bytes - header_bytes == 0
      then refused s
      else (let b = if has_marker h.flags then JitterBuffer.reset est s.buffer else s.buffer in
          (
            true,
            record s {
              last_packet_ms = now;
              buffer = JitterBuffer.push est h.seq (drop header_bytes bytes) now b;
            },
          ))

  unfoldable pub on_media_payload : List ℕ → ℕ → PhoneMediaSource → Bool × PhoneMediaSource
  unfolding on_header
  on_media_payload bytes now s = on_header (read_header bytes) bytes now s

  unfoldable pub is_ready : PhoneMediaSource → Bool
  is_ready s = s.started && JitterBuffer.ready est s.buffer

  unfoldable pub is_stalled : ℕ → PhoneMediaSource → Bool
  is_stalled now s = JitterBuffer.stalled est now s.buffer

  -- `read` of a source that has started.
  unfoldable pub read_started :
      ℕ → PhoneMediaSource → SourceStatus × List dec.Sample × PhoneMediaSource
  read_started samples s =
      let p = JitterBuffer.pop est dec samples s.decoder s.buffer in
      (
        if p.ok then SourceStatus.ok else SourceStatus.underrun,
        p.out,
        record s { decoder = p.decoder; buffer = p.buffer },
      )

  unfoldable pub read : ℕ → PhoneMediaSource → SourceStatus × List dec.Sample × PhoneMediaSource
  unfolding read_started
  read samples s =
      if not s.started
      then (SourceStatus.failed, replicate samples dec.quiet, s)
      else read_started samples s
