-- ===== src/Driver/Stream/Ticks.antt =====
-- minwavestream.cpp: what the ticks of the timer deliver, and how fast.
use smartmic_windows.Prelude.{
  ℕ, zero, suc, ◌+◌, ◌-◌, ◌*◌, ◌/◌, ◌%◌, ◌^◌, ◌≤◌, ◌<◌, ◌≡◌, ◌≢◌, inl, inr, refl, ap, sym, true,
  false, List, [], ◌∷◌, ◌++◌, Option, none, some, arith, length, take, drop, leb, ◌==◌,
  if◌then◌else◌, add32, add64, length-take, Bool-cases, ◌∙◌, ne→eqb, leb→le, Option-cases, subst,
  drop_all,
}
use native.Mathlib.Nat.{mod-eq_of_lt, mul-add-mod_self_right}
use smartmic_windows.Cells.Window.{length-window}
use smartmic_windows.Driver.Ring.{Ring, ring_frames, read, producer_alive}
use smartmic_windows.Driver.Ring.Writes.{InStep, waiting, read_delivers}
use smartmic_windows.Driver.Stream.{
  Stream, bytes_of, poke, period, registered, tick_live, on_timer_tick, get_position,
}
use smartmic_windows.Driver.Stream.Valid.{held_bytes}
use smartmic_windows.Driver.Stream.Fits.{
  IsPeriodic, next-IsPeriodic, period_inside, length-bytes_of,
}

tick-live :
    (now : ℕ) (s : Stream) {b : List ℕ}
    → s.buffer ≡ some b
    → s.timer_running ≡ true
    → s.bytes_per_notification ≢ 0
    → on_timer_tick now s ≡ tick_live now b s
unfolding on_timer_tick
tick-live now s held running some_bytes =
    let none : (s.bytes_per_notification == 0) ≡ false =
      ne→eqb s.bytes_per_notification 0 some_bytes in
    ground (arith, held, running, none)

take_before : (n : ℕ) (b xs : List ℕ) → n ≤ length b → take n (take n b ++ xs) ≡ take n b
take_before zero b xs h = refl
take_before (suc n) [] xs h = absurd (omega arith)
take_before (suc n) (x ∷ b) xs h = ap (◌∷◌ x) (take_before n b xs (omega arith))

drop_before : (n : ℕ) (b xs : List ℕ) → n ≤ length b → drop n (take n b ++ xs) ≡ xs
drop_before zero b xs h = refl
drop_before (suc n) [] xs h = absurd (omega arith)
drop_before (suc n) (x ∷ b) xs h = drop_before n b xs (omega arith)

take_front : (bs ys : List ℕ) → take (length bs) (bs ++ ys) ≡ bs
take_front [] ys = refl
take_front (x ∷ bs) ys = ap (◌∷◌ x) (take_front bs ys)

drop_front : (bs ys : List ℕ) → drop (length bs) (bs ++ ys) ≡ ys
drop_front [] ys = refl
drop_front (x ∷ bs) ys = drop_front bs ys

drop-drop : (m n : ℕ) (l : List ℕ) → drop (m + n) l ≡ drop m (drop n l)
drop-drop m zero l = ap (λ (k : ℕ). drop k l) (omega arith)
drop-drop m (suc n) [] = drop_all (m + suc n) [] (omega arith) ∙ sym (drop_all m [] (omega arith))
drop-drop m (suc n) (x ∷ l) =
    let place : m + suc n ≡ suc (m + n) = omega arith in
    ap (λ (k : ℕ). drop k (x ∷ l)) place ∙ drop-drop m n l

-- What lies before, in and behind the place that is written.
poke_parts :
    (off : ℕ) (bs b : List ℕ)
    → length bs + off ≤ length b
    → (take off (poke off bs b) ≡ take off b)
      × (take (length bs) (drop off (poke off bs b)) ≡ bs)
      × (drop (length bs + off) (poke off bs b) ≡ drop (length bs + off) b)
poke_parts off bs b h =
    let rest = drop (length bs + off) b in
    let from_off : drop off (poke off bs b) ≡ bs ++ rest =
      drop_before off b (bs ++ rest) (omega arith) in
    (
      take_before off b (bs ++ rest) (omega arith),
      ap (take (length bs)) from_off ∙ take_front bs rest,
      drop-drop (length bs) off (poke off bs b)
          ∙ ap (drop (length bs)) from_off
          ∙ drop_front bs rest,
    )

-- One period out of a ring that holds enough.
period-delivers :
    (now frames bytes : ℕ) (r : Ring) {o : Option Ring}
    → o ≡ some r
    → bytes ≡ 2 * frames
    → (read now r frames).1 ≡ take frames (waiting r)
    → period now bytes o ≡ (bytes_of (take frames (waiting r)), some (read now r frames).2)
unfolding period
period-delivers now frames bytes r {o} ring even out =
    let whole : bytes / 2 ≡ frames = omega arith in
    ap (period now bytes) ring
    ∙ ap (λ (n : ℕ). (bytes_of (read now r n).1, some (read now r n).2)) whole
    ∙ ap (λ l. (bytes_of l, some (read now r frames).2)) out

-- A tick of a running stream whose periods are a whole number of frames, not zero and no more
-- than wait in a ring in step with a live producer, and whose period lies inside the buffer: the
-- period holds the oldest of the frames that waited, in order; the rest of the buffer is as it was;
-- the other frames still wait; and all the events that are registered are signalled.
pub tick_delivers :
    (now frames : ℕ) (s : Stream) {b : List ℕ} {r : Ring}
    → s.buffer ≡ some b
    → s.ring ≡ some r
    → s.timer_running ≡ true
    → s.bytes_per_notification ≡ 2 * frames
    → frames ≢ 0
    → s.write_offset + s.bytes_per_notification ≤ length b
    → InStep r
    → producer_alive now r ≡ true
    → frames ≤ r.write_index - r.read_index
    → let (signalled, s') = on_timer_tick now s in
      let after = held_bytes s'.buffer in
      let r' = (read now r frames).2 in
      (take s.bytes_per_notification (drop s.write_offset after)
        ≡ bytes_of (take frames (waiting r)))
      × (take s.write_offset after ≡ take s.write_offset b)
      × (drop (s.bytes_per_notification + s.write_offset) after
          ≡ drop (s.bytes_per_notification + s.write_offset) b)
      × (s'.ring ≡ some r')
      × (waiting r' ≡ drop frames (waiting r))
      × (signalled ≡ registered s.notification_events)
unfolding tick_live period
tick_delivers now frames s {b} {r} held ring running even some_frames inside v alive enough =
    let delivered = read_delivers now r frames v alive some_frames enough in
    let one = period-delivers now frames s.bytes_per_notification r ring even delivered.1 in
    let bs = bytes_of (take frames (waiting r)) in
    let live = tick-live now s held running (omega (arith, even, some_frames)) in
    let buffer : held_bytes (on_timer_tick now s).1.buffer ≡ poke s.write_offset bs b =
      ap (λ t. held_bytes t.1.buffer) live ∙ ap (λ p. poke s.write_offset p.0 b) one in
    let size : s.bytes_per_notification ≡ length bs = omega (
      arith,
      even,
      length-bytes_of (take frames (waiting r)),
      length-take frames (waiting r),
      length-window r.payload ring_frames r.read_index (r.write_index - r.read_index),
      enough,
    ) in
    let (before, in_place, behind) = poke_parts s.write_offset bs b (omega (arith, inside, size)) in
    (
      ap (λ l. take s.bytes_per_notification (drop s.write_offset l)) buffer
          ∙ ap (λ (n : ℕ). take n (drop s.write_offset (poke s.write_offset bs b))) size
          ∙ in_place,
      ap (take s.write_offset) buffer ∙ before,
      ap (drop (s.bytes_per_notification + s.write_offset)) buffer
          ∙ ap (λ (n : ℕ). drop (n + s.write_offset) (poke s.write_offset bs b)) size
          ∙ behind
          ∙ ap (λ (n : ℕ). drop (n + s.write_offset) b) (sym size),
      ap (λ t. t.1.ring) live ∙ ap (λ p. p.1) one,
      delivered.2,
      ap (λ t. t.0) live,
    )

-- The ticks of the timer at the given times.
abbrev pub run_ticks : List ℕ → Stream → Stream
run_ticks [] s = s
run_ticks (now ∷ nows) s = run_ticks nows (on_timer_tick now s).1

-- The frames written, in bytes, are some rounds of the buffer and the offset.
abbrev pub Tracks : Stream → Type 0
Tracks s = (rounds : ℕ) × (s.frames_written * 2 ≡ rounds * s.buffer_bytes + s.write_offset)

-- A stream that is running on a buffer of whole periods of `frames` frames.
pub record IsRunning (frames : ℕ) (s : Stream) : Type 0 where
  pub held : s.buffer ≢ none
  pub running : s.timer_running ≡ true
  pub even : s.bytes_per_notification ≡ 2 * frames
  pub periodic : IsPeriodic s.buffer_bytes s.bytes_per_notification s.write_offset

next_round :
    {bytes size offset : ℕ} (frames written rounds : ℕ)
    → IsPeriodic bytes size offset
    → size ≡ 2 * frames
    → written * 2 ≡ rounds * bytes + offset
    → written + frames < 2 ^ 63
    → (rounds' : ℕ) × (add64 written (size / 2) * 2
        ≡ rounds' * bytes + (if leb bytes (add32 offset size) then 0 else add32 offset size))
next_round {bytes} {size} {offset} frames written rounds p even at small =
    elim (Bool-cases (leb bytes (add32 offset size))) [
      | inl end ↦ (
        suc rounds,
        rw end (
            let full : bytes ≤ offset + size =
              omega (arith, leb→le bytes (add32 offset size) end, moved) in
            omega (arith, wrote, at, even, full, period_inside p)),
      )
      | inr inside ↦ (rounds, rw inside (omega (arith, wrote, at, even, moved)))
    ]
  where
    moved : add32 offset size ≡ offset + size
    moved = omega (arith, period_inside p, p.word)

    wrote : add64 written (size / 2) ≡ written + frames
    wrote = omega arith

tick_live-IsRunning :
    (now frames : ℕ) (s : Stream) (b : List ℕ)
    → frames ≢ 0
    → IsRunning frames s
    → let s' = (tick_live now b s).1 in
      IsRunning frames s'
      × (Tracks s → s.frames_written + frames < 2 ^ 63 → Tracks s')
      × (s'.frames_written ≡ add64 s.frames_written frames)
      × (s'.buffer_bytes ≡ s.buffer_bytes)
unfolding tick_live
tick_live-IsRunning now frames s b some_frames v = (
  record {
    held = ground arith;
    running = v.running;
    even = v.even;
    periodic = next-IsPeriodic (omega (arith, v.even)) v.periodic;
  },
  λ (rounds, at) small. next_round frames s.frames_written rounds v.periodic v.even at small,
  omega (arith, v.even),
  refl,
)

on_timer_tick-IsRunning :
    (now frames : ℕ) (s : Stream)
    → frames ≢ 0
    → IsRunning frames s
    → let s' = (on_timer_tick now s).1 in
      IsRunning frames s'
      × (Tracks s → s.frames_written + frames < 2 ^ 63 → Tracks s')
      × (s'.frames_written ≡ add64 s.frames_written frames)
      × (s'.buffer_bytes ≡ s.buffer_bytes)
on_timer_tick-IsRunning now frames s some_frames v = elim (Option-cases s.buffer) [
  | inl gone ↦ absurd (v.held gone)
  | inr (b, held) ↦
      let live = tick-live now s held v.running (omega (arith, v.even, some_frames)) in
      subst
        (λ (t : List ℕ × Stream).
          IsRunning frames t.1
          × (Tracks s → s.frames_written + frames < 2 ^ 63 → Tracks t.1)
          × (t.1.frames_written ≡ add64 s.frames_written frames)
          × (t.1.buffer_bytes ≡ s.buffer_bytes))
        (sym live) (tick_live-IsRunning now frames s b some_frames v)
]

run_ticks-Tracks :
    (nows : List ℕ) (frames : ℕ) (s : Stream)
    → frames ≢ 0
    → IsRunning frames s
    → Tracks s
    → s.frames_written + length nows * frames < 2 ^ 63
    → let s' = run_ticks nows s in
      IsRunning frames s'
      × Tracks s'
      × (s'.frames_written ≡ s.frames_written + length nows * frames)
run_ticks-Tracks [] frames s some_frames v tracks small = (v, tracks, omega arith)
run_ticks-Tracks (now ∷ nows) frames s some_frames v tracks small =
    let (w, moved, wrote, same) = on_timer_tick-IsRunning now frames s some_frames v in
    let one : (on_timer_tick now s).1.frames_written ≡ s.frames_written + frames =
      omega (arith, wrote, small) in
    let (v', tracks', count) =
      run_ticks-Tracks nows frames (on_timer_tick now s).1 some_frames w
        (moved tracks (omega (arith, small))) (omega (arith, one, small)) in
    (v', tracks', omega (arith, count, one))

-- A running stream on a buffer of whole periods of a whole number of frames, not zero, with its
-- offset where the frames written so far lead: after any number of ticks, at any times and with
-- any producer, the frames written are those of that many periods more, short of 2 ^ 63 frames;
-- and the position that `GetPosition` reports is, modulo the buffer, the offset that is written
-- next.
pub ticks_keep_position :
    (nows : List ℕ) (frames : ℕ) (s : Stream)
    → frames ≢ 0
    → IsRunning frames s
    → Tracks s
    → s.frames_written + length nows * frames < 2 ^ 63
    → let s' = run_ticks nows s in
      (s'.frames_written ≡ s.frames_written + length nows * frames)
      × (get_position s' % s'.buffer_bytes ≡ s'.write_offset)
unfolding get_position
ticks_keep_position nows frames s some_frames v tracks small =
    let (v', (rounds, at), count) = run_ticks-Tracks nows frames s some_frames v tracks small in
    let s' = run_ticks nows s in
    let whole : get_position s' ≡ rounds * s'.buffer_bytes + s'.write_offset =
      omega (arith, at, count, small) in
    let below : s'.write_offset < s'.buffer_bytes =
      omega (arith, period_inside v'.periodic, v'.even, some_frames) in
    (
      count,
      ap (λ (n : ℕ). n % s'.buffer_bytes) whole
          ∙ mul-add-mod_self_right rounds s'.buffer_bytes s'.write_offset
          ∙ mod-eq_of_lt below,
    )
