-- ===== src/Driver/Miniport/Streams.antt =====
-- minwave.cpp: one stream at a time, and each starts at what is published now.
use smartmic_windows.Prelude.{ℕ, ◌≡◌, ◌↔◌, Bool, true, false, some, arith}
use smartmic_windows.Driver.Status.{success, device_busy}
use smartmic_windows.Driver.Ring.{Ring, set_stream_open}
use smartmic_windows.Driver.Stream.{
  Format, init, destroy, is_endpoint_format, stop_timer, free_buffer_internal,
}
use smartmic_windows.Driver.Miniport.{idle, streaming, capture_sink, new_stream, close_stream}

-- On an idle miniport over a ring that is ready: a stream opens exactly where the object can be
-- allocated and the pin, the direction and the format are the endpoint's; then the consumer's
-- index is the producer's, so nothing that was buffered before is heard, a second stream is
-- refused, and the close brings the miniport back to an idle one with the ring's stream closed.
pub one_stream_at_a_time :
    (can_allocate : Bool) (pin : ℕ) (capture : Bool) (f : Format) (r : Ring)
    → r.is_ready ≡ true
    → let (status, m) = new_stream can_allocate pin capture f (idle r) in
      let fresh = record r { stream_open = true; read_index = r.write_index } in
      (status ≡ success ↔ (
        (can_allocate ≡ true)
        × (pin ≡ capture_sink)
        × (capture ≡ true)
        × (is_endpoint_format f ≡ true)))
      × (status ≡ success
          → (m ≡ streaming (record (init pin capture f r).1 { ring = some fresh }))
            × ((new_stream can_allocate pin capture f m).0 ≡ device_busy)
            × (close_stream m ≡ idle (record fresh { stream_open = false })))
unfolding new_stream close_stream init destroy set_stream_open stop_timer free_buffer_internal
one_stream_at_a_time can_allocate pin capture f r ready = ground arith
