-- ===== src/Driver/Stream/Tests.antt =====
-- The WaveRT stream on concrete data.
use smartmic_windows.Prelude.{
  ℕ, ◌+◌, ◌*◌, ◌%◌, ◌/◌, ◌≤◌, ◌<◌, ◌≡◌, refl, true, List, [], ◌∷◌, Option, none, some, arith,
  length, take, drop, replicate,
}
use smartmic_windows.Driver.Status.{success, unsuccessful}
use smartmic_windows.Driver.Ring.{read, read_live, set_stream_open, producer_alive, span}
use smartmic_windows.Cells.{copy_out}
use smartmic_windows.Driver.Ring.Writes.{waiting}
use smartmic_windows.Driver.Tests.{three_waiting, three_waiting-InStep, alive}
use smartmic_windows.Driver.Stream.{
  Stream, Format, run, init, allocate, with_buffer, bytes_of, registered, on_timer_tick,
  register_event, unregister_event, get_position, rounded_size, place_buffer, set_state,
  start_timer, tick_live, period,
}
use smartmic_windows.Driver.Stream.Valid.{held_bytes}
use smartmic_windows.Driver.Stream.Calls.{Call, steps, step, ticks_stay_inside}
use smartmic_windows.Driver.Stream.Events.{IsRegistry}
use smartmic_windows.Driver.Stream.Sizes.{allocate_lem}
use smartmic_windows.Driver.Stream.Ticks.{tick_delivers, IsRunning, run_ticks, ticks_keep_position}

abbrev endpoint_format : Format
endpoint_format = record {
  is_waveformatex = true;
  samples_per_sec = 48000;
  channels = 1;
  bits_per_sample = 16;
}

-- A buffer of three periods of two frames, the second of which is written next.
abbrev busy : Stream
busy = record {
  ring = some three_waiting;
  pin = 0;
  capture = true;
  state = run;
  buffer = some (replicate 12 7);
  buffer_bytes = 12;
  notifications_per_buffer = 3;
  bytes_per_notification = 4;
  write_offset = 4;
  frames_written = 8;
  timer_running = true;
  notification_events = 50 ∷ 0 ∷ 60 ∷ 0 ∷ [];
  notification_event_count = 2;
}

tick_run : (on_timer_tick 2000 busy).0 ≡ 50 ∷ 60 ∷ []
unfolding on_timer_tick tick_live
tick_run = refl

tick_delivers_example :
    let (signalled, s') = on_timer_tick 2000 busy in
    let after = held_bytes s'.buffer in
    let r' = (read 2000 three_waiting 2).2 in
    (take 4 (drop 4 after) ≡ bytes_of (take 2 (waiting three_waiting)))
    × (take 4 after ≡ take 4 (replicate 12 7))
    × (drop (4 + 4) after ≡ drop (4 + 4) (replicate 12 7))
    × (s'.ring ≡ some r')
    × (waiting r' ≡ drop 2 (waiting three_waiting))
    × (signalled ≡ registered (50 ∷ 0 ∷ 60 ∷ 0 ∷ []))
tick_delivers_example =
    tick_delivers 2000 2 busy refl refl refl refl (omega arith) (omega arith) three_waiting-InStep
      alive (omega arith)

busy-IsRunning : IsRunning 2 busy
busy-IsRunning = record {
  held = ground arith;
  running = refl;
  even = refl;
  periodic = record {
    periods = 3;
    done = 1;
    whole = refl;
    at_period = refl;
    before_end = omega arith;
    word = omega arith;
  };
}

ticks_keep_position_example :
    let s' = run_ticks (2000 ∷ 2100 ∷ 2200 ∷ []) busy in
    (s'.frames_written ≡ 8 + 3 * 2) × (get_position s' % s'.buffer_bytes ≡ s'.write_offset)
ticks_keep_position_example =
    ticks_keep_position (2000 ∷ 2100 ∷ 2200 ∷ []) 2 busy (omega arith) busy-IsRunning (1, refl)
      (omega arith)

-- A buffer of 40 ms in four periods.
allocate_lem_example :
    (1920 < 2 * 4 → allocate true true 4 1920 busy ≡ some (unsuccessful, busy))
    × (2 * 4 ≤ 1920
        → (size : ℕ) × (allocate true true 4 1920 busy ≡ some (success, with_buffer 4 size busy))
          × (size ≡ 4 * (with_buffer 4 size busy).bytes_per_notification)
          × ((with_buffer 4 size busy).bytes_per_notification ≡ 2 * (1920 / (2 * 4)))
          × ((with_buffer 4 size busy).buffer ≡ some (replicate size 0))
          × ((with_buffer 4 size busy).buffer_bytes ≡ size)
          × (size ≤ 1920)
          × (1920 < size + 2 * 4))
allocate_lem_example = allocate_lem 4 1920 busy (omega arith) (omega arith)

-- A buffer of two periods of four frames, one of which is written.
abbrev some_calls : List Call
some_calls =
    Call.allocates true true 2 16
    ∷ Call.registers 50
    ∷ Call.sets_state run
    ∷ Call.ticks 2000
    ∷ Call.registers 60
    ∷ Call.unregisters 50
    ∷ []

abbrev opened : Stream
opened = (init 0 true endpoint_format three_waiting).1

abbrev reached : Option Stream → Stream
reached none = busy
reached (some s) = s

abbrev after_calls : Stream
after_calls = reached (steps some_calls opened)

calls_run : steps some_calls opened ≡ some after_calls
unfolding steps step allocate rounded_size place_buffer with_buffer register_event unregister_event
    set_state start_timer set_stream_open on_timer_tick tick_live period read read_live init
calls_run = refl

one_period_written :
    (after_calls.buffer ≡ some (replicate 16 0))
    × (after_calls.write_offset ≡ 8)
    × (after_calls.bytes_per_notification ≡ 8)
    × (after_calls.notification_events ≡ 0 ∷ 60 ∷ 0 ∷ 0 ∷ [])
unfolding steps step allocate rounded_size place_buffer with_buffer register_event unregister_event
    set_state start_timer set_stream_open on_timer_tick tick_live period read read_live init
    producer_alive copy_out span
one_period_written = (refl, refl, refl, refl)

ticks_stay_inside_example :
    IsRegistry after_calls.notification_events after_calls.notification_event_count
    × (after_calls.write_offset + after_calls.bytes_per_notification ≤ 16)
    × ((now : ℕ) → length (held_bytes (on_timer_tick now after_calls).1.buffer) ≡ 16)
ticks_stay_inside_example =
    ticks_stay_inside 0 true endpoint_format three_waiting some_calls
      ((omega arith, omega arith), (omega arith, (tt, (tt, (omega arith, (omega arith, tt))))))
      calls_run one_period_written.0 (omega (arith, one_period_written.2))
