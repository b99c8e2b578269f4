-- ===== src/Media/Tests.antt =====
-- The sealed channel and the jitter buffer on concrete data.
use smartmic_windows.Prelude.{
  ℕ, ◌*◌, Option, true, false, ◌≡◌, refl, List, [], ◌∷◌, ◌++◌, none, some, arith, drop, replicate,
  length-append, length-replicate,
}
use smartmic_windows.Protocol.ReplayWindow.{reset}
use smartmic_windows.Protocol.ReplayWindow.History.{NoRepeat, is_fresh, reset-Tracks}
use smartmic_windows.Media.SecureChannel.{Sodium, SecureChannel, seal, open_packet, replay_width}
use smartmic_windows.Media.SecureChannel.Sealed.{Paired, packet_of, sealed_opens_once}
use smartmic_windows.Media.SecureChannel.Once.{
  delivered, delivers_once, forged_moves_nothing, Guarded,
}
use smartmic_windows.Media.Packets.{MediaHeader}
use smartmic_windows.Media.PhoneSource.{
  Encoder, MediaSender, PhoneMediaSource, pack_frame, on_media_payload,
}
use smartmic_windows.Media.PhoneSource.Heard.{heard, on_media_payload-pack_frame}
use smartmic_windows.Media.Packets.RoundTrip.{read_header-write_header}
use smartmic_windows.Media.Packets.RoundTrip
use smartmic_windows.Media.JitterBuffer.{
  Estimator, Decoder, JitterConfig, JitterBuffer, make, pop, frame_samples,
}
use smartmic_windows.Media.JitterBuffer.Account.{
  Balanced, Call, calls, calls-Balanced, pushes, pops,
}
use smartmic_windows.Media.JitterBuffer.Order.{PlaysNext, pop-PlaysNext}

-- A box that puts sixteen zeros in front, and opens whatever has something after them.
abbrev pub open_toy : List ℕ → List ℕ → List ℕ → Option (List ℕ)
open_toy key nonce [] = none
open_toy key nonce (b ∷ bs) = some (drop 15 bs)

abbrev pub toy_sodium : Sodium
toy_sodium = record {
  ready = true;
  derive = λ n id key. replicate n id;
  seal_box = λ key nonce plain. replicate 16 0 ++ plain;
  open_box = open_toy;
  open-seal = λ key nonce plain. refl;
  length-seal = λ key nonce plain.
      omega (arith, length-append (replicate 16 0) plain, length-replicate {A = ℕ} 16 0);
}

abbrev pub blank : SecureChannel
blank = record {
  initialised = false;
  send_key = [];
  recv_key = [];
  send_nonce_prefix = [];
  recv_nonce_prefix = [];
  counter = 0;
  replay = reset;
  sealed = 0;
  opened = 0;
  auth_failures = 0;
  replay_rejects = 0;
  malformed = 0;
}

abbrev phone : SecureChannel
phone = record blank {
  initialised = true;
  send_key = replicate 32 1;
  recv_key = replicate 32 2;
  send_nonce_prefix = replicate 16 11;
  recv_nonce_prefix = replicate 16 12;
}

abbrev pc : SecureChannel
pc = record blank {
  initialised = true;
  send_key = replicate 32 2;
  recv_key = replicate 32 1;
  send_nonce_prefix = replicate 16 12;
  recv_nonce_prefix = replicate 16 11;
}

phone-pc-Paired : Paired phone pc
phone-pc-Paired = record { a_ready = refl; b_ready = refl; key = refl; prefix = refl }

pc-fresh : is_fresh replay_width [] pc.replay phone.counter ≡ true
unfolding is_fresh
pc-fresh = refl

sealed_opens_once_example :
    let packet = packet_of toy_sodium (1 ∷ 2 ∷ []) phone in
    let (heard, b') = open_packet toy_sodium packet pc in
    ((seal toy_sodium (1 ∷ 2 ∷ []) phone).0 ≡ some packet)
    × (heard ≡ some (1 ∷ 2 ∷ []))
    × ((open_packet toy_sodium packet b').0 ≡ none)
sealed_opens_once_example =
    sealed_opens_once toy_sodium [] (1 ∷ 2 ∷ []) phone pc phone-pc-Paired (omega arith)
      (reset-Tracks replay_width) pc-fresh

pc-Guarded : Guarded [] pc
pc-Guarded = record { tracks = reset-Tracks replay_width; no_repeat = tt }

abbrev wire : List (List ℕ)
wire =
    packet_of toy_sodium (1 ∷ []) phone
    ∷ (9 ∷ [])
    ∷ packet_of toy_sodium (1 ∷ []) phone
    ∷ packet_of toy_sodium (2 ∷ []) (record phone { counter = 1 })
    ∷ []

delivers_once_example : NoRepeat (delivered toy_sodium wire pc [])
delivers_once_example = delivers_once toy_sodium wire [] pc pc-Guarded

-- A packet of eight bytes and nothing behind them does not open.
abbrev hollow : List ℕ
hollow = replicate 8 3

forged_moves_nothing_example :
    let (out, ch') = open_packet toy_sodium hollow pc in
    (out ≡ none) × (ch'.replay ≡ pc.replay) × (ch'.opened ≡ pc.opened) × (ch'.counter ≡ pc.counter)
forged_moves_nothing_example = forged_moves_nothing toy_sodium hollow pc refl

abbrev pub toy_estimator : Estimator
toy_estimator = record { J = ℕ; none_yet = 0; smooth = λ j d. d; three_times = λ j. 3 * j }

abbrev pub toy_decoder : Decoder
toy_decoder = record {
  D = ℕ;
  Sample = ℕ;
  quiet = 0;
  decode = λ payload n d. (true, payload, d);
  conceal = λ n d. ([], d);
}

abbrev pub small_config : JitterConfig
small_config = record {
  target_ms = 40;
  min_ms = 20;
  max_ms = 40;
  prefill_ms = 40;
  stall_ms = 300;
  adaptive = false;
}

abbrev pub empty_buffer : JitterBuffer toy_estimator
empty_buffer = make toy_estimator small_config

empty_buffer-Balanced : Balanced empty_buffer
empty_buffer-Balanced = record {
  bounded = omega arith;
  sorted = tt;
  balance = refl;
  word = omega arith;
}

abbrev arrivals : List Call
arrivals =
    pushes 10 (1 ∷ []) 0 ∷ pushes 12 (2 ∷ []) 20 ∷ pops 960 ∷ pushes 12 (2 ∷ []) 40 ∷ pops 960 ∷ []

calls-Balanced_example : Balanced (calls toy_decoder arrivals 0 empty_buffer)
calls-Balanced_example =
    calls-Balanced toy_decoder arrivals 0 empty_buffer empty_buffer-Balanced (omega arith)

-- One packet waits, two places ahead of the play position, well below the target.
abbrev ahead : JitterBuffer toy_estimator
ahead = record empty_buffer {
  started = true;
  next_seq = 10;
  queue = (12, record { payload = 2 ∷ []; arrival_ms = 20 }) ∷ [];
}

pop-PlaysNext_example :
    PlaysNext toy_decoder 0 ahead (pop toy_estimator toy_decoder frame_samples 0 ahead)
pop-PlaysNext_example = pop-PlaysNext toy_decoder 0 ahead refl

abbrev a_header : MediaHeader
a_header = record { version = 1; flags = 3; reserved = 0; seq = 70000; timestamp_samples = 960 }

a_header-IsValid : RoundTrip.IsValid a_header
a_header-IsValid = record {
  current = refl;
  flags_byte = omega arith;
  reserved_half = omega arith;
  seq_word = omega arith;
  timestamp_word = omega arith;
}

abbrev opus_bytes : List ℕ
opus_bytes = 9 ∷ 8 ∷ []

-- An encoder that keeps the samples as they are.
abbrev toy_encoder : Encoder
toy_encoder = record { E = ℕ; Sample = ℕ; encode = λ pcm e. (some pcm, e) }

abbrev a_sender : MediaSender toy_encoder
a_sender = record { encoder = 0; seq = 7; timestamp = 960; marker = true }

abbrev a_source : PhoneMediaSource toy_estimator toy_decoder
a_source = record {
  buffer = empty_buffer;
  decoder = 0;
  started = true;
  malformed = 0;
  last_packet_ms = 0;
}

on_media_payload-pack_frame_example :
    (packet : List ℕ) × ((pack_frame toy_encoder opus_bytes true a_sender).0 ≡ some packet)
    × (on_media_payload toy_estimator toy_decoder packet 40 a_source
        ≡ (true, heard toy_encoder toy_estimator toy_decoder a_sender opus_bytes 40 a_source))
on_media_payload-pack_frame_example =
    on_media_payload-pack_frame toy_encoder toy_estimator toy_decoder opus_bytes true 40 opus_bytes
      0 a_sender a_source refl (λ h. ground (arith, h)) (omega arith) (omega arith)
