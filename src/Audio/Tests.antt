-- ===== src/Audio/Tests.antt =====
-- The service's audio path on concrete data.
use smartmic_windows.Prelude.{
  ℕ, ◌+◌, true, false, ◌≡◌, ◌⊎◌, refl, ap, List, [], ◌∷◌, ◌++◌, some, arith, length, drop,
  replicate, length-replicate, add64,
}
use mathlib.Core.List.{Memᴰ}
use smartmic_windows.Prelude.Int.{pos}
use smartmic_windows.Audio.Float.{clamp01}
use smartmic_windows.Audio.Float.Milli.{milli, milli-laws}
use smartmic_windows.Audio.StateMachine.{
  SourceStateMachine, Event, initial, apply, run, wants_phone, phone_active, auto, start_ptt,
  phone_ready, mode_phone_only,
}
use smartmic_windows.Audio.StateMachine.Traces.{Before, phone_needs_consent}
use smartmic_windows.Audio.StateMachine.Region.{InRegion, run-InRegion}
use smartmic_windows.Audio.RingBuffer.{RingBuffer, fresh, write}
use smartmic_windows.Audio.RingBuffer.Refine.{
  IsValid, contents, excess, write_refines, fresh-IsValid,
}
use smartmic_windows.Audio.Crossfade.{Fade, resting, fade_to, advance_by, frame_samples}
use smartmic_windows.Audio.Crossfade.Landing
use smartmic_windows.Audio.Io.{AudioSource, AudioSink, SourceStatus}
use smartmic_windows.Audio.Router.{Router, RouterConfig, make, tick, drained, update_timers}
use smartmic_windows.Audio.Router.Frame.{offered, tick_writes_frame}
use smartmic_windows.Audio.Router.Watchdog.{timed, is_overdue, is_stale, update_timers_lem}
use smartmic_windows.Audio.Router.Drain.{Drained, post_all, control_in_order}
use smartmic_windows.Audio.DeviceRegistry.{DeviceRegistry}

abbrev talk : List Event
talk = start_ptt ∷ phone_ready ∷ []

talk-run : (run initial talk).state ≡ phone_active
unfolding run apply
talk-run = refl

talk_wants : wants_phone (run initial talk).state ≡ true
talk_wants = ap wants_phone talk-run

phone_needs_consent_example : Before start_ptt phone_ready talk ⊎ Memᴰ mode_phone_only talk
phone_needs_consent_example = phone_needs_consent talk talk_wants

run-InRegion_example : InRegion (run initial talk)
run-InRegion_example = run-InRegion talk

abbrev speaking : SourceStateMachine
speaking = record { state = phone_active; mode = auto }

abbrev three : List ℕ
three = 1 ∷ 2 ∷ 3 ∷ []

-- A full ring of two places, about to wrap.
abbrev small_ring : RingBuffer ℕ
small_ring = record {
  capacity = 2;
  cells = λ i. i + 10;
  write_index = 3;
  read_index = 1;
  overruns = 0;
  underruns = 0;
}

small_ring-IsValid : IsValid 1 small_ring
small_ring-IsValid = record {
  power = refl;
  small = omega arith;
  write_word = omega arith;
  read_word = omega arith;
  held = omega arith;
}

write_refines_example :
    let (dropped, r') = write small_ring three in
    let all = contents small_ring ++ three in
    IsValid 1 r'
    × (dropped ≡ excess small_ring all)
    × (contents r' ≡ drop (excess small_ring all) all)
write_refines_example = write_refines 1 small_ring three small_ring-IsValid (omega arith)

abbrev at_rest : Fade milli
at_rest = resting milli milli.zero

at_rest-IsValid : Landing.IsValid milli-laws at_rest
at_rest-IsValid = record {
  position_in = (refl, refl, refl);
  target_in = (refl, refl, refl);
  step_number = refl;
}

fade_lands_example :
    let c' = advance_by milli 960 (fade_to milli at_rest milli.one 20) in
    (c'.remaining ≡ 0)
    × ((c'.position ≡ clamp01 milli milli.one)
        ⊎ ((milli.eq (milli.sub (clamp01 milli milli.one) at_rest.position) milli.zero ≡ true)
            × (c'.position ≡ at_rest.position)))
fade_lands_example =
    Landing.fade_lands milli-laws at_rest milli.one 20 960 refl at_rest-IsValid (omega arith)
      (omega arith)

-- A source of one constant, and a sink that counts frames.
abbrev pub steady : AudioSource milli
steady = record {
  State = ℕ;
  read = λ s n. (SourceStatus.ok, replicate n (pos s), s);
  exact = λ s n. length-replicate n (pos s);
}

abbrev pub counting : AudioSink milli
counting = record { State = ℕ; write = λ s frame. (true, s + 1) }

abbrev pub defaults : RouterConfig steady steady counting
defaults = record {
  crossfade_ms = 20;
  arm_timeout_ms = 2000;
  phone_lost_timeout_ms = 300;
  local_gain_linear = pos 1000;
  phone_gain_linear = pos 1000;
}

abbrev new_router : Router steady steady counting
unfolding make
new_router = make steady steady counting defaults (some 100) (some 200) (some 0)

tick_writes_frame_example :
    let (ok, r') = tick steady steady counting new_router in
    (length r'.out_buf ≡ frame_samples)
    × ((ok, r'.sink) ≡ offered counting new_router.sink r'.out_buf)
    × (r'.frame_index ≡ add64 new_router.frame_index 1)
    × (r'.frames_produced ≡ add64 new_router.frame_index 1)
tick_writes_frame_example = tick_writes_frame new_router

-- The phone has been silent for forty frames.
abbrev deserted : Router steady steady counting
unfolding new_router
deserted = record new_router { sm = speaking; frame_index = 50; last_heartbeat_frame = 10 }

update_timers_lem_example :
    let sm' = (update_timers steady steady counting deserted).sm in
    (sm'.state ≡ timed (is_overdue deserted) (is_stale deserted) deserted.sm.mode deserted.sm.state)
    × (sm'.mode ≡ deserted.sm.mode)
update_timers_lem_example = update_timers_lem deserted

new_queue-IsValid : IsValid 8 new_router.events
unfolding new_router
new_queue-IsValid = fresh-IsValid 8 0 (omega arith)

new_queue_empty : contents new_router.events ≡ []
unfolding new_router fresh
new_queue_empty = refl

control_in_order_example :
    Drained (run new_router.sm talk) (drained steady steady counting (post_all talk new_router))
control_in_order_example =
    control_in_order talk new_router new_queue-IsValid new_queue_empty (omega arith)

abbrev registry : DeviceRegistry
registry = record {
  devices =
      record { id = 1; is_default = true; is_smart_mic_endpoint = true }
      ∷ record { id = 2; is_default = false; is_smart_mic_endpoint = false }
      ∷ [];
  preferred_id = some 1;
  auto_prefer = false;
}
