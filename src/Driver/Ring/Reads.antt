-- ===== src/Driver/Ring/Reads.antt =====
-- ring.cpp: what `Read` gives, whatever the producer has written to its index.
use smartmic_windows.Prelude.{
  ℕ, ◌+◌, ◌-◌, ◌≤◌, ◌<◌, ◌^◌, ◌≡◌, ◌≢◌, refl, true, false, ◌++◌, length, replicate, arith, min,
  add64, ◌==◌, ne→eqb, length-append, length-replicate,
}
use smartmic_windows.Cells.{copy_out}
use smartmic_windows.Cells.Window.{window, length-window, copy_out-window}
use smartmic_windows.Driver.Ring.{Ring, span, read, read_live, producer_alive, ring_frames}

-- No span is longer than the ring, and none runs past the producer.
span_bounds :
    (r : Ring)
    → r.write_index < 2 ^ 64
    → r.read_index < 2 ^ 64
    → ((span r).available ≤ ring_frames)
      × ((span r).start < 2 ^ 64)
      × ((span r).available ≢ 0 → (span r).start + (span r).available ≡ r.write_index)
unfolding span
span_bounds r hw hr = ground arith

pub read-live :
    (now : ℕ) (r : Ring) (frames : ℕ)
    → r.is_ready ≡ true
    → producer_alive now r ≡ true
    → frames ≢ 0
    → read now r frames ≡ read_live r frames
unfolding read
read-live now r frames ready alive some_frames =
    let none : (frames == 0) ≡ false = ne→eqb frames 0 some_frames in ground arith

-- A live producer's ring, read for at least one frame: exactly that many frames are written, first
-- frames of the payload, as many as were returned, and then silence; what is taken from the payload
-- fits the ring and ends at the producer's index at the latest, whatever that index is; and the
-- consumer's index moves past the whole request.
pub read_is_safe :
    (now : ℕ) (r : Ring) (frames : ℕ)
    → r.is_ready ≡ true
    → producer_alive now r ≡ true
    → frames ≢ 0
    → r.write_index < 2 ^ 64
    → r.read_index < 2 ^ 64
    → let (real, frame, r') = read now r frames in
      let start = (span r).start in
      (frame ≡ window r.payload ring_frames start real ++ replicate (frames - real) 0)
      × (length frame ≡ frames)
      × (real ≤ ring_frames)
      × (real ≢ 0 → start + real ≤ r.write_index)
      × (r'.read_index ≡ add64 start frames)
unfolding read_live
read_is_safe now r frames ready alive some_frames hw hr =
    let real = min frames (span r).available in
    let bounds = span_bounds r hw hr in
    let out : copy_out r.payload ring_frames (span r).start real
        ≡ window r.payload ring_frames (span r).start real =
      copy_out-window r.payload 13 (span r).start real (omega (arith, bounds.0)) in
    rw (read-live now r frames ready alive some_frames, out)
      (
        refl,
        omega (
          arith,
          length-append (window r.payload ring_frames (span r).start real)
              (replicate (frames - real) 0),
          length-window r.payload ring_frames (span r).start real,
          length-replicate {A = ℕ} (frames - real) 0,
        ),
        omega (arith, bounds.0),
        λ h. omega (arith, bounds.2 (λ e. h (omega (arith, e)))),
        refl,
      )
