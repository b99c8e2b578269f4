-- ===== src/Driver/Ring.antt =====
-- The ring shared with the driver: windows/driver/ring.cpp (the consumer, in the kernel) and
-- windows/audio-service/platform/windows/smartmic_driver_link.cpp (the producer, in user mode).
-- A frame is one 16-bit word. Producer and consumer calls run one after another.
pub mod Reads
pub mod Writes
pub mod Starved
use smartmic_windows.Prelude.{
  ℕ, zero, suc, ◌-◌, ◌*◌, ◌/◌, ◌%◌, ◌^◌, min, Bool, true, false, ◌&&◌, ◌||◌, not, List, [], ◌∷◌,
  ◌++◌, length, leb, ltb, ◌==◌, if◌then◌else◌, replicate, add64, sub64, add32, map,
}
use smartmic_windows.Cells.{Memory, copy_in, copy_out}

abbrev pub ring_frames : ℕ
ring_frames = 2 ^ 13

abbrev pub producer_timeout : ℕ
producer_timeout = 2500000

abbrev pub max_long : ℕ
max_long = 2147483647

-- SMARTMIC_RING_HEADER and the payload behind it, with the driver's own pointers to them:
-- `is_ready` is false while they are null.
pub record Ring : Type 0 where
  pub is_ready : Bool
  pub payload : Memory ℕ
  pub write_index : ℕ
  pub producer_heartbeat : ℕ
  pub read_index : ℕ
  pub underrun_count : ℕ
  pub overrun_count : ℕ
  pub frames_delivered : ℕ
  pub stream_open : Bool

-- `ProducerAlive`, at an interrupt time.
unfoldable pub producer_alive : ℕ → Ring → Bool
producer_alive now r =
    if not r.is_ready
    then false
    else if r.producer_heartbeat == 0
    then false
    else leb r.producer_heartbeat now && ltb (sub64 now r.producer_heartbeat) producer_timeout

-- What `Read` has found out once it has looked at the two indices.
pub record Span : Type 0 where
  pub start : ℕ
  pub available : ℕ
  pub skipped : ℕ

unfoldable pub span : Ring → Span
span r =
    if leb r.read_index r.write_index
    then (let held = sub64 r.write_index r.read_index in
        if ltb ring_frames held
        then record {
          start = add64 r.read_index (held - ring_frames);
          available = ring_frames;
          skipped = held - ring_frames;
        }
        else record { start = r.read_index; available = held; skipped = 0 })
    else record { start = r.read_index; available = 0; skipped = 0 }

-- `RtlZeroMemory(dst, wantBytes)`, where the byte count is a 32-bit product.
abbrev pub all_silent : ℕ → List ℕ
all_silent frames = replicate (frames * 2 % 2 ^ 32 / 2) 0

-- `Read` below its two early returns.
unfoldable pub read_live : Ring → ℕ → ℕ × List ℕ × Ring
read_live r frames =
    let s = span r in
    let real = min frames s.available in
    (
      real,
      copy_out r.payload ring_frames s.start real ++ replicate (frames - real) 0,
      record r {
        read_index = add64 s.start frames;
        overrun_count =
            if s.skipped == 0
            then r.overrun_count
            else add32 r.overrun_count (min s.skipped max_long);
        underrun_count =
            if ltb real frames then add32 r.underrun_count (frames - real) else r.underrun_count;
        frames_delivered = add64 r.frames_delivered frames;
      },
    )

-- `Read`, at an interrupt time: the result, what was written to the destination, and the ring.
unfoldable pub read : ℕ → Ring → ℕ → ℕ × List ℕ × Ring
unfolding read_live
read now r frames =
    if not r.is_ready || (frames == 0)
    then (0, all_silent frames, r)
    else if not (producer_alive now r)
    then (0, all_silent frames, record r { underrun_count = add32 r.underrun_count frames })
    else read_live r frames

unfoldable pub set_stream_open : Bool → Ring → Ring
set_stream_open true r =
    if r.is_ready then record r { stream_open = true; read_index = r.write_index } else r
set_stream_open false r = if r.is_ready then record r { stream_open = false } else r

-- The counters that `GetStats` fills in.
pub record Stats : Type 0 where
  pub frames_delivered : ℕ
  pub underrun_count : ℕ
  pub overrun_count : ℕ
  pub stream_open : Bool

unfoldable pub get_stats : Ring → Stats
get_stats r =
    if r.is_ready
    then record {
      frames_delivered = r.frames_delivered;
      underrun_count = r.underrun_count;
      overrun_count = r.overrun_count;
      stream_open = r.stream_open;
    }
    else record { frames_delivered = 0; underrun_count = 0; overrun_count = 0; stream_open = false }

-- `beat`, at an interrupt time.
unfoldable pub beat : ℕ → Ring → Ring
beat now r = record r { producer_heartbeat = now }

-- The two ways out of `SmartMicDriverLink::write`: the frames are dropped, or stored and published.
unfoldable pub link_drop : ℕ → Ring → List ℕ → Ring
unfolding beat
link_drop now r frames =
    beat now (record r { overrun_count = add32 r.overrun_count (length frames) })

unfoldable pub link_put : ℕ → Ring → List ℕ → Ring
unfolding beat
link_put now r frames = beat now (record r {
  payload = copy_in r.payload ring_frames r.write_index frames;
  write_index = add64 r.write_index (length frames);
})

-- `SmartMicDriverLink::write` while attached, at an interrupt time, of frames that are already
-- words; it returns true on both paths.
unfoldable pub link_write : ℕ → Ring → List ℕ → Ring
unfolding link_drop link_put
link_write now r frames =
    let used = sub64 r.write_index r.read_index in
    if ltb ring_frames (add64 used (length frames))
    then link_drop now r frames
    else link_put now r frames
