-- ===== src/Driver/Miniport.antt =====
-- windows/driver/minwave.cpp: the wave miniport, which has at most one stream open.
pub mod Streams
use smartmic_windows.Prelude.{
  ℕ, ◌+◌, Bool, true, false, ◌||◌, not, Option, none, some, ltb, ◌==◌, if◌then◌else◌,
}
use smartmic_windows.Driver.Status.{
  Status, success, invalid_parameter, device_busy, insufficient_resources, buffer_overflow,
  buffer_too_small, nt_success,
}
use smartmic_windows.Driver.Ring.{Ring}
use smartmic_windows.Driver.Stream.{Stream, Format, init, destroy}

-- KSPIN_WAVE_CAPTURE_SINK
abbrev pub capture_sink : ℕ
capture_sink = 0

-- `m_stream`, and the ring: while a stream is open, the ring is the one that the stream holds.
pub data Miniport : Type 0 where
  idle : Ring → Miniport
  streaming : Stream → Miniport

-- The ring behind a stream object that is released.
abbrev pub released : Ring → Option Ring → Ring
released r none = r
released r (some r') = r'

abbrev pub keep_if : Ring → Status × Stream → Status × Miniport
unfolding destroy
keep_if r (status, s) =
    if nt_success status then (status, streaming s) else (status, idle (released r (destroy s)))

-- `NewStream`, where the object can or cannot be allocated.
unfoldable pub new_stream : Bool → ℕ → Bool → Format → Miniport → Status × Miniport
unfolding init destroy
new_stream can_allocate pin capture f (streaming s) =
    if not (pin == capture_sink) || not capture
    then (invalid_parameter, streaming s)
    else (device_busy, streaming s)
new_stream can_allocate pin capture f (idle r) =
    if not (pin == capture_sink) || not capture
    then (invalid_parameter, idle r)
    else if not can_allocate
    then (insufficient_resources, idle r)
    else keep_if r (init pin capture f r)

-- The release of the stream that is open: its destructor, and the `StreamClosed` in it. A stream
-- that is open holds a ring, since `Init` is given one.
unfoldable pub close_stream : Miniport → Miniport
unfolding destroy
close_stream (idle r) = idle r
close_stream (streaming s) = elim (destroy s) [ none ↦ streaming s | some r ↦ idle r ]

-- `DataRangeIntersection`, where the format has `size` bytes: the status, the length that is
-- reported, and whether the format is copied out.
unfoldable pub data_range_intersection : ℕ → ℕ → Status × ℕ × Bool
data_range_intersection size output_length =
    if output_length == 0
    then (buffer_overflow, size, false)
    else if ltb output_length size
    then (buffer_too_small, 0, false)
    else (success, size, true)
