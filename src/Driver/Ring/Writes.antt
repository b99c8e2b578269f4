-- ===== src/Driver/Ring/Writes.antt =====
-- The producer's write and the consumer's read together: what is written is heard, in order.
use smartmic_windows.Prelude.{
  ℕ, ◌+◌, ◌-◌, ◌≤◌, ◌<◌, ◌^◌, ◌≡◌, ◌≢◌, refl, sym, ap, ◌∙◌, true, List, ◌++◌, length, replicate,
  take, drop, arith, min, add64, sub64, le→ltb, append-nil,
}
use mathlib.Core.Path.{ap₂}
use smartmic_windows.Cells.{copy_in, copy_out}
use smartmic_windows.Cells.Window.{
  window, window-append, window-copy_in, window-copy_in_before, copy_out-window, take-window,
  drop-window,
}
use smartmic_windows.Driver.Ring.{
  Ring, link_put, span, read, read_live, producer_alive, link_write, ring_frames,
}
use smartmic_windows.Driver.Ring.Reads.{read-live}

-- The producer is not behind the consumer, nor further ahead than the ring is long.
pub record InStep (r : Ring) : Type 0 where
  pub ready : r.is_ready ≡ true
  pub order : r.read_index ≤ r.write_index
  pub fits : r.write_index - r.read_index ≤ ring_frames
  pub word : r.write_index < 2 ^ 63

-- The frames between the two indices, oldest first.
abbrev pub waiting : Ring → List ℕ
waiting r = window r.payload ring_frames r.read_index (r.write_index - r.read_index)

link_write-fits :
    (now : ℕ) (r : Ring) (frames : List ℕ)
    → InStep r
    → r.write_index - r.read_index + length frames ≤ ring_frames
    → link_write now r frames ≡ link_put now r frames
unfolding link_write
link_write-fits now r frames v room =
    let small : add64 (sub64 r.write_index r.read_index) (length frames) ≤ ring_frames =
      omega (arith, v.order, v.word) in
    rw (le→ltb ring_frames (add64 (sub64 r.write_index r.read_index) (length frames)) small) refl

link_put-waiting :
    (now : ℕ) (r : Ring) (frames : List ℕ)
    → InStep r
    → r.write_index + length frames < 2 ^ 63
    → r.write_index - r.read_index + length frames ≤ ring_frames
    → waiting (link_put now r frames) ≡ waiting r ++ frames
unfolding link_put
link_put-waiting now r frames v word room =
    ap (window m ring_frames r.read_index) span_length
    ∙ window-append m ring_frames r.read_index held (length frames)
    ∙ ap₂ ◌++◌ before after
  where
    held : ℕ
    held = r.write_index - r.read_index

    m : ℕ → ℕ
    m = copy_in r.payload ring_frames r.write_index frames

    span_length : add64 r.write_index (length frames) - r.read_index ≡ held + length frames
    span_length = omega (arith, v.order)

    place : r.write_index ≡ r.read_index + held
    place = omega (arith, v.order)

    moved : m ≡ copy_in r.payload ring_frames (r.read_index + held) frames
    moved = ap (λ at. copy_in r.payload ring_frames at frames) place

    before : window m ring_frames r.read_index held ≡ waiting r
    before =
        ap (λ c. window c ring_frames r.read_index held) moved
        ∙ window-copy_in_before r.payload 13 r.read_index held frames room

    after : window m ring_frames (r.read_index + held) (length frames) ≡ frames
    after =
        ap (λ c. window c ring_frames (r.read_index + held) (length frames)) moved
        ∙ window-copy_in r.payload 13 (r.read_index + held) frames (omega arith)

-- A write by the service to a ring in step that has room for it: the ring stays in step, and the
-- frames wait behind those that waited.
pub link_write_queues :
    (now : ℕ) (r : Ring) (frames : List ℕ)
    → InStep r
    → r.write_index + length frames < 2 ^ 63
    → r.write_index - r.read_index + length frames ≤ ring_frames
    → InStep (link_write now r frames) × (waiting (link_write now r frames) ≡ waiting r ++ frames)
unfolding link_put
link_write_queues now r frames v word room = rw (link_write-fits now r frames v room) (
  record {
    ready = v.ready;
    order = omega (arith, v.order);
    fits = omega (arith, v.order);
    word = omega arith;
  },
  link_put-waiting now r frames v word room,
)

span-InStep :
    (r : Ring)
    → InStep r
    → ((span r).start ≡ r.read_index) × ((span r).available ≡ r.write_index - r.read_index)
unfolding span
span-InStep r v =
    let held : sub64 r.write_index r.read_index ≡ r.write_index - r.read_index =
      omega (arith, v.order, v.word) in
    ground (arith, v.order, v.fits, held)

read_live-InStep :
    (r : Ring) (frames : ℕ)
    → InStep r
    → frames ≤ r.write_index - r.read_index
    → InStep (read_live r frames).2
      × ((read_live r frames).1 ≡ take frames (waiting r))
      × (waiting (read_live r frames).2 ≡ drop frames (waiting r))
unfolding read_live
read_live-InStep r frames v enough = (
  record {
    ready = v.ready;
    order = omega (arith, start, v.order, v.word);
    fits = omega (arith, start, v.order, v.word, v.fits);
    word = v.word;
  },
  ap₂ (λ n at. copy_out r.payload ring_frames at n ++ replicate (frames - n) 0) real start
      ∙ ap (λ n. copy_out r.payload ring_frames r.read_index frames ++ replicate n 0) nothing
      ∙ append-nil (copy_out r.payload ring_frames r.read_index frames)
      ∙ copy_out-window r.payload 13 r.read_index frames (omega (arith, v.fits))
      ∙ take-window r.payload ring_frames r.read_index frames held enough,
  ap (λ at. window r.payload ring_frames at (r.write_index - at)) next
      ∙ ap (window r.payload ring_frames (r.read_index + frames)) (omega (arith, v.order))
      ∙ sym (drop-window r.payload ring_frames r.read_index frames held enough),
)
  where
    held : ℕ
    held = r.write_index - r.read_index

    start : (span r).start ≡ r.read_index
    start = (span-InStep r v).0

    real : min frames (span r).available ≡ frames
    real = omega (arith, (span-InStep r v).1)

    nothing : frames - frames ≡ 0
    nothing = omega arith

    next : add64 (span r).start frames ≡ r.read_index + frames
    next = omega (arith, start, v.order, v.word)

-- A read by the driver, with a live producer, of no more frames than wait in a ring in step: the
-- oldest of them are delivered in order, the others still wait, and the ring stays in step.
pub read_delivers :
    (now : ℕ) (r : Ring) (frames : ℕ)
    → InStep r
    → producer_alive now r ≡ true
    → frames ≢ 0
    → frames ≤ r.write_index - r.read_index
    → let (real, out, r') = read now r frames in
      InStep r' × (out ≡ take frames (waiting r)) × (waiting r' ≡ drop frames (waiting r))
read_delivers now r frames v alive some_frames enough =
    rw (read-live now r frames v.ready alive some_frames) (read_live-InStep r frames v enough)
