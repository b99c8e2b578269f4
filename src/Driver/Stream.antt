-- ===== src/Driver/Stream.antt =====
-- windows/driver/minwavestream.cpp: the WaveRT capture stream. A periodic timer plays the part of
-- the DMA engine: each tick copies one notification period out of the ring into the WaveRT buffer.
-- Calls run one after another. Events are pointers, numbers with 0 for NULL; what the memory
-- manager answers is an argument.
pub mod Events
pub mod Fits
pub mod Sizes
pub mod Valid
pub mod Calls
pub mod Ticks
pub mod Tests
use smartmic_windows.Prelude.{
  ℕ, zero, suc, ◌+◌, ◌-◌, ◌*◌, ◌/◌, ◌%◌, ◌^◌, Bool, true, false, ◌&&◌, ◌||◌, not, List, [], ◌∷◌,
  ◌++◌, Option, none, some, length, take, drop, leb, ◌==◌, if◌then◌else◌, replicate, add64, add32,
  sub32,
}
use smartmic_windows.Media.Bytes.{le_bytes}
use smartmic_windows.Driver.Status.{
  Status, success, unsuccessful, insufficient_resources, not_found, device_not_ready,
  invalid_parameter,
}
use smartmic_windows.Driver.Ring.{Ring, read, set_stream_open}

abbrev pub sample_rate : ℕ
sample_rate = 48000

abbrev pub channels : ℕ
channels = 1

abbrev pub bits : ℕ
bits = 16

abbrev pub bytes_per_frame : ℕ
bytes_per_frame = 2

abbrev pub max_notification_events : ℕ
max_notification_events = 4

pub data KsState : Type 0 where
  stop acquire pause run : KsState

-- `CMiniportWaveRTStream`. `buffer` is what m_bufferVa points to, and stands for m_bufferMdl too;
-- `ring` is the ring that m_ring points to.
pub record Stream : Type 0 where
  pub ring : Option Ring
  pub pin : ℕ
  pub capture : Bool
  pub state : KsState
  pub buffer : Option (List ℕ)
  pub buffer_bytes : ℕ
  pub notifications_per_buffer : ℕ
  pub bytes_per_notification : ℕ
  pub write_offset : ℕ
  pub frames_written : ℕ
  pub timer_running : Bool
  pub notification_events : List ℕ
  pub notification_event_count : ℕ

-- The fields of the format that `Init` reads; `is_waveformatex` is whether FormatSize is at least
-- that of a KSDATAFORMAT_WAVEFORMATEX.
pub record Format : Type 0 where
  pub is_waveformatex : Bool
  pub samples_per_sec : ℕ
  pub channels : ℕ
  pub bits_per_sample : ℕ

abbrev pub is_endpoint_format : Format → Bool
is_endpoint_format f =
    f.is_waveformatex
    && (f.samples_per_sec == sample_rate)
    && (f.channels == channels)
    && (f.bits_per_sample == bits)

abbrev pub open_ring : Bool → Option Ring → Option Ring
unfolding set_stream_open
open_ring b none = none
open_ring b (some r) = some (set_stream_open b r)

-- `Init`, of a stream object on a ring.
unfoldable pub init : ℕ → Bool → Format → Ring → Status × Stream
init pin capture f r =
    let s : Stream = record {
      ring = some r;
      pin = pin;
      capture = capture;
      state = stop;
      buffer = none;
      buffer_bytes = 0;
      notifications_per_buffer = 0;
      bytes_per_notification = 0;
      write_offset = 0;
      frames_written = 0;
      timer_running = false;
      notification_events = replicate max_notification_events 0;
      notification_event_count = 0;
    } in
    if is_endpoint_format f
    then (success, record s { ring = open_ring true (some r) })
    else (invalid_parameter, s)

-- `FreeBufferInternal`
unfoldable pub free_buffer_internal : Stream → Stream
free_buffer_internal s = elim s.buffer [
  | none ↦ s
  | some b ↦ record s { buffer = none; buffer_bytes = 0 }
]

unfoldable pub start_timer : Stream → Stream
start_timer s = if s.timer_running then s else record s { timer_running = true }

unfoldable pub stop_timer : Stream → Stream
stop_timer s = if not s.timer_running then s else record s { timer_running = false }

-- The destructor, up to the references it gives back: what is left of the ring.
unfoldable pub destroy : Stream → Option Ring
unfolding stop_timer free_buffer_internal
destroy s = open_ring false (free_buffer_internal (stop_timer s)).ring

-- `FreeAudioBuffer`
unfoldable pub free_audio_buffer : Stream → Stream
unfolding free_buffer_internal
free_audio_buffer s = free_buffer_internal s

-- `FreeBufferWithNotification`
unfoldable pub free_buffer_with_notification : Stream → Stream
unfolding free_buffer_internal stop_timer
free_buffer_with_notification s = free_buffer_internal (stop_timer s)

-- `SMARTMIC_BYTES_PER_FRAME * NotificationCount`, a product of 32 bits.
abbrev pub grain : ℕ → ℕ
grain notification_count = bytes_per_frame * notification_count % 2 ^ 32

-- The rounded size, or none where the modulus is 0 and the division traps.
unfoldable pub rounded_size : ℕ → ℕ → Option ℕ
rounded_size notification_count requested_size =
    if grain notification_count == 0
    then none
    else some (requested_size - requested_size % grain notification_count)

-- The fields that a buffer of `size` bytes sets.
unfoldable pub with_buffer : ℕ → ℕ → Stream → Stream
with_buffer notification_count size s = record s {
  buffer = some (replicate size 0);
  buffer_bytes = size;
  notifications_per_buffer = notification_count;
  bytes_per_notification = size / notification_count;
  write_offset = 0;
  frames_written = 0;
}

-- `AllocateBufferWithNotification` below the rounding.
unfoldable pub place_buffer : Bool → Bool → ℕ → ℕ → Stream → Status × Stream
unfolding with_buffer
place_buffer can_allocate can_map notification_count size s =
    if size == 0
    then (unsuccessful, s)
    else if not can_allocate || not can_map
    then (insufficient_resources, s)
    else (success, with_buffer notification_count size s)

-- `AllocateBufferWithNotification`, where the pages can or cannot be allocated and mapped; on
-- success the size returned is `buffer_bytes`. None is a division by zero.
unfoldable pub allocate : Bool → Bool → ℕ → ℕ → Stream → Option (Status × Stream)
unfolding rounded_size place_buffer
allocate can_allocate can_map notification_count requested_size s =
    if (requested_size == 0) || (notification_count == 0)
    then some (unsuccessful, s)
    else elim (rounded_size notification_count requested_size) [
      | none ↦ none
      | some size ↦ some (place_buffer can_allocate can_map notification_count size s)
    ]

-- `AllocateAudioBuffer`
unfoldable pub allocate_audio_buffer : Bool → Bool → ℕ → Stream → Option (Status × Stream)
unfolding allocate
allocate_audio_buffer can_allocate can_map requested_size s =
    allocate can_allocate can_map 1 requested_size s

-- The first loop of `RegisterNotificationEvent`, and the search of `UnregisterNotificationEvent`.
abbrev pub holds : ℕ → List ℕ → Bool
holds e [] = false
holds e (x ∷ xs) = if x == e then true else holds e xs

-- The first entry that is `e` becomes `e'`.
abbrev pub put_over : ℕ → ℕ → List ℕ → List ℕ
put_over e e' [] = []
put_over e e' (x ∷ xs) = if x == e then e' ∷ xs else x ∷ put_over e e' xs

unfoldable pub register_event : ℕ → Stream → Status × Stream
register_event e s =
    if holds e s.notification_events
    then (unsuccessful, s)
    else if holds 0 s.notification_events
    then (
      success,
      record s {
        notification_events = put_over 0 e s.notification_events;
        notification_event_count = add32 s.notification_event_count 1;
      },
    )
    else (insufficient_resources, s)

unfoldable pub unregister_event : ℕ → Stream → Status × Stream
unregister_event e s =
    if holds e s.notification_events
    then (
      success,
      record s {
        notification_events = put_over e 0 s.notification_events;
        notification_event_count = sub32 s.notification_event_count 1;
      },
    )
    else (not_found, s)

-- `GetHWLatency`: the FIFO size; the other delays are 0.
unfoldable pub get_hw_latency : Stream → ℕ
get_hw_latency s = s.bytes_per_notification

abbrev pub clear : Option (List ℕ) → ℕ → Option (List ℕ)
clear none n = none
clear (some b) n = some (replicate n 0 ++ drop n b)

unfoldable pub set_state : KsState → Stream → Status × Stream
unfolding start_timer stop_timer
set_state stop s =
    let s' = stop_timer s in
    (
      success,
      record s' {
        write_offset = 0;
        frames_written = 0;
        buffer = clear s'.buffer s'.buffer_bytes;
        state = stop;
      },
    )
set_state acquire s = (success, record (stop_timer s) { state = acquire })
set_state pause s = (success, record (stop_timer s) { state = pause })
set_state run s = elim s.buffer [
  | none ↦ (device_not_ready, s)
  | some b ↦
      (success, record (start_timer (record s { ring = open_ring true s.ring })) { state = run })
]

-- `GetPosition`: the play and the write offset, which are the same.
unfoldable pub get_position : Stream → ℕ
get_position s = s.frames_written * bytes_per_frame % 2 ^ 64

-- The words of the ring, as they lie in memory.
abbrev pub bytes_of : List ℕ → List ℕ
bytes_of [] = []
bytes_of (w ∷ ws) = le_bytes 2 w ++ bytes_of ws

-- Bytes written into a buffer from `off` on; what would lie past the end makes it longer.
abbrev pub poke : ℕ → List ℕ → List ℕ → List ℕ
poke off bs b = take off b ++ (bs ++ drop (length bs + off) b)

-- What one period writes, and the ring behind it.
unfoldable pub period : ℕ → ℕ → Option Ring → List ℕ × Option Ring
unfolding read
period now bytes none = (replicate bytes 0, none)
period now bytes (some r) =
    let (real, out, r') = read now r (bytes / bytes_per_frame) in (bytes_of out, some r')

-- The events that the last loop of `OnTimerTick` signals.
abbrev pub registered : List ℕ → List ℕ
registered [] = []
registered (e ∷ es) = let rest = registered es in if e == 0 then rest else e ∷ rest

-- `OnTimerTick` below its early return, on the buffer.
unfoldable pub tick_live : ℕ → List ℕ → Stream → List ℕ × Stream
unfolding period
tick_live now b s =
    let bytes = s.bytes_per_notification in
    let (written, ring') = period now bytes s.ring in
    let offset = add32 s.write_offset bytes in
    (
      registered s.notification_events,
      record s {
        ring = ring';
        buffer = some (poke s.write_offset written b);
        write_offset = if leb s.buffer_bytes offset then 0 else offset;
        frames_written = add64 s.frames_written (bytes / bytes_per_frame);
      },
    )

-- `OnTimerTick`, at an interrupt time: the events that are signalled, in order.
unfoldable pub on_timer_tick : ℕ → Stream → List ℕ × Stream
unfolding tick_live
on_timer_tick now s = elim s.buffer [
  | none ↦ ([], s)
  | some b ↦
      if not s.timer_running || (s.bytes_per_notification == 0) then ([], s) else tick_live now b s
]
