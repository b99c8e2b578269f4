-- ===== src/Audio/Router.antt =====
-- windows/audio-service/src/router.cpp and router.h. A method that changes the router returns the
-- new router; the two sources and the sink are parameters, and so is the arithmetic. Control calls
-- and ticks run one after another.
pub mod Frame
pub mod Drain
pub mod Limiter
pub mod Steady
pub mod Unarmed
pub mod Watchdog
use smartmic_windows.Prelude.{
  ℕ, zero, suc, ◌-◌, ◌/◌, ◌<◌, Bool, true, false, ◌&&◌, ◌||◌, List, [], ◌∷◌, Option, none, some,
  max, ltb, ◌==◌, if◌then◌else◌, replicate, add64, sub64,
}
use smartmic_windows.Audio.Float.{Float}
use smartmic_windows.Audio.Io.{AudioSource, AudioSink, SourceStatus}
use smartmic_windows.Audio.Crossfade.{
  Fade, GainPair, active, fade_to, advance, fade_gains, ramp_gain, resting, frame_samples,
  frame_millis,
}
use smartmic_windows.Audio.RingBuffer.{RingBuffer, fresh, available}
use smartmic_windows.Audio.RingBuffer
use smartmic_windows.Audio.StateMachine.{
  SourceState, RoutingMode, Event, SourceStateMachine, initial, apply, wants_phone, wants_local,
  local_active, phone_arming, phone_active, returning_to_local, muted, error_recovery, auto, mute,
  start_ptt, stop_ptt, phone_ready, phone_lost, arm_timeout, fade_complete, source_failure,
  recovered, mode_auto, mode_phone_only, mode_local_only, mode_mute,
}

-- `static_cast<uint32_t>(e)`.
abbrev pub code : Event → ℕ
code start_ptt = 0
code stop_ptt = 1
code phone_ready = 2
code phone_lost = 3
code arm_timeout = 4
code fade_complete = 5
code source_failure = 6
code recovered = 7
code mode_auto = 8
code mode_phone_only = 9
code mode_local_only = 10
code mode_mute = 11

-- `static_cast<Event>(raw)`: `none` for a value that no enumerator has.
abbrev pub event_of : ℕ → Option Event
event_of zero = some start_ptt
event_of (suc zero) = some stop_ptt
event_of (suc (suc zero)) = some phone_ready
event_of (suc (suc (suc zero))) = some phone_lost
event_of (suc (suc (suc (suc zero)))) = some arm_timeout
event_of (suc (suc (suc (suc (suc zero))))) = some fade_complete
event_of (suc (suc (suc (suc (suc (suc zero)))))) = some source_failure
event_of (suc (suc (suc (suc (suc (suc (suc zero))))))) = some recovered
event_of (suc (suc (suc (suc (suc (suc (suc (suc zero)))))))) = some mode_auto
event_of (suc (suc (suc (suc (suc (suc (suc (suc (suc zero))))))))) = some mode_phone_only
event_of (suc (suc (suc (suc (suc (suc (suc (suc (suc (suc zero)))))))))) = some mode_local_only
event_of (suc (suc (suc (suc (suc (suc (suc (suc (suc (suc (suc zero))))))))))) = some mode_mute
event_of _ = none

-- `framesFor`.
abbrev pub frames_for : ℕ → ℕ
frames_for ms = max 1 (ms / frame_millis)

abbrev pub is_state : SourceState → SourceState → Bool
is_state local_active local_active = true
is_state phone_arming phone_arming = true
is_state phone_active phone_active = true
is_state returning_to_local returning_to_local = true
is_state SourceState.phone_only SourceState.phone_only = true
is_state SourceState.local_only SourceState.local_only = true
is_state muted muted = true
is_state error_recovery error_recovery = true
is_state _ _ = false

abbrev pub is_failed : SourceStatus → Bool
is_failed SourceStatus.failed = true
is_failed _ = false

module _ {f : Float} (local_source phone_source : AudioSource f) (output : AudioSink f) where
  pub record RouterConfig : Type 0 where
    pub crossfade_ms : ℕ
    pub arm_timeout_ms : ℕ
    pub phone_lost_timeout_ms : ℕ
    pub local_gain_linear : f.F
    pub phone_gain_linear : f.F

  pub record Router : Type 0 where
    pub config : RouterConfig
    pub sm : SourceStateMachine
    pub fade : Fade f
    pub gate : Fade f
    pub local : Option local_source.State
    pub phone : Option phone_source.State
    pub sink : Option output.State
    pub local_buf : List f.F
    pub phone_buf : List f.F
    pub out_buf : List f.F
    pub events : RingBuffer ℕ
    pub frame_index : ℕ
    pub arm_started_frame : ℕ
    pub last_heartbeat_frame : ℕ
    pub frames_produced : ℕ
    pub transitions : ℕ
    pub phone_lost_events : ℕ
    pub arm_timeouts : ℕ
    pub source_failures : ℕ
    pub sink_failures : ℕ
    pub limited : ℕ

  abbrev pub silence : List f.F
  silence = replicate frame_samples f.zero

  -- The constructor, with the sources and the sink that the wire-up calls set.
  unfoldable pub make :
      RouterConfig
      → Option local_source.State
      → Option phone_source.State
      → Option output.State
      → Router
  make config local phone sink = record {
    config = config;
    sm = initial;
    fade = resting f f.zero;
    gate = resting f f.one;
    local = local;
    phone = phone;
    sink = sink;
    local_buf = silence;
    phone_buf = silence;
    out_buf = silence;
    events = fresh 256 0;
    frame_index = 0;
    arm_started_frame = 0;
    last_heartbeat_frame = 0;
    frames_produced = 0;
    transitions = 0;
    phone_lost_events = 0;
    arm_timeouts = 0;
    source_failures = 0;
    sink_failures = 0;
    limited = 0;
  }

  -- The control surface: every call posts an event and decides nothing.
  unfoldable pub post : Event → Router → Router
  post e r = record r { events = (RingBuffer.write r.events (code e ∷ [])).1 }

  unfoldable pub notify_phone_heartbeat : Router → Router
  notify_phone_heartbeat r = record r { last_heartbeat_frame = r.frames_produced }

  abbrev pub set_mode : RoutingMode → Router → Router
  set_mode auto r = post mode_auto r
  set_mode RoutingMode.phone_only r = post mode_phone_only r
  set_mode RoutingMode.local_only r = post mode_local_only r
  set_mode mute r = post mode_mute r

  -- `startPtt`: the request counts as liveness.
  unfoldable pub start_ptt_call : Router → Router
  unfolding post notify_phone_heartbeat
  start_ptt_call r = post start_ptt (notify_phone_heartbeat r)

  unfoldable pub stop_ptt_call : Router → Router
  unfolding post
  stop_ptt_call r = post stop_ptt r

  unfoldable pub notify_phone_ready : Router → Router
  unfolding post notify_phone_heartbeat
  notify_phone_ready r = post phone_ready (notify_phone_heartbeat r)

  unfoldable pub notify_phone_gone : Router → Router
  unfolding post
  notify_phone_gone r = post phone_lost r

  fade_by : Router → f.F → Fade f
  fade_by r target = fade_to f r.fade target r.config.crossfade_ms

  -- The switch at the end of `applyEvent`.
  enter : SourceState → Router → Router
  unfolding fade_by
  enter phone_active r = record r { fade = fade_by r f.one }
  enter SourceState.phone_only r = record r { fade = fade_by r f.one }
  enter phone_arming r = record r { arm_started_frame = r.frame_index; fade = fade_by r f.zero }
  enter returning_to_local r = record r { fade = fade_by r f.zero }
  enter local_active r = record r { fade = fade_by r f.zero }
  enter SourceState.local_only r = record r { fade = fade_by r f.zero }
  enter muted r = record r { fade = fade_by r f.zero }
  enter error_recovery r = r

  abbrev is_silent : SourceState → Bool
  is_silent s = is_state s muted || is_state s error_recovery

  changed_to : SourceState → Router → Router
  unfolding enter
  changed_to to r = enter to (record r {
    transitions = add64 r.transitions 1;
    gate = fade_to f r.gate (if is_silent to then f.zero else f.one) r.config.crossfade_ms;
  })

  unfoldable pub apply_event : Event → Router → Router
  unfolding changed_to
  apply_event e r =
      let (t, sm) = apply r.sm e in
      let r' = record r { sm = sm } in
      if t.accepted then if t.changed then changed_to t.to r' else r' else r'

  unfoldable pub apply_raw : ℕ → Router → Router
  apply_raw raw r = elim (event_of raw) [ some e ↦ apply_event e r | none ↦ r ]

  on_item : (Router → Router) → List ℕ → Router → Router
  on_item next [] r = r
  on_item next (raw ∷ _) r = next (apply_raw raw r)

  -- `drainEvents`: `while (events_.read(&raw, 1) == 1) applyEvent(...)`, with fuel.
  unfoldable pub drain_events : ℕ → Router → Router
  unfolding on_item
  drain_events zero r = r
  drain_events (suc fuel) r =
      let (items, rest) = RingBuffer.read r.events 1 in
      on_item (drain_events fuel) items (record r { events = rest })

  check_heartbeat : Router → Router
  check_heartbeat r =
      let last = r.last_heartbeat_frame in
      if ltb last r.frame_index
        && ltb (frames_for r.config.phone_lost_timeout_ms) (sub64 r.frame_index last)
      then apply_event phone_lost (record r { phone_lost_events = add64 r.phone_lost_events 1 })
      else r

  arm_expired : Router → Bool
  arm_expired r = ltb (frames_for r.config.arm_timeout_ms) (sub64 r.frame_index r.arm_started_frame)

  unfoldable pub update_timers : Router → Router
  unfolding check_heartbeat arm_expired
  update_timers r =
      if is_state r.sm.state error_recovery
      then apply_event recovered r
      else if is_state r.sm.state phone_arming && arm_expired r
      then apply_event arm_timeout (record r { arm_timeouts = add64 r.arm_timeouts 1 })
      else if is_state r.sm.state phone_active
      then check_heartbeat r
      else r

  -- The lambda `fill` of `readSources`, for each of the two sources.
  read_local : Option local_source.State → Router → Router
  read_local none r = record r { local_buf = silence }
  read_local (some s) r =
      let (status, frame, s') = local_source.read s frame_samples in
      if is_failed status
      then apply_event source_failure (record r {
        local = some s';
        local_buf = silence;
        source_failures = add64 r.source_failures 1;
      })
      else record r { local = some s'; local_buf = frame }

  fill_local : Bool → Router → Router
  unfolding read_local
  fill_local false r = record r { local_buf = silence }
  fill_local true r = read_local r.local r

  read_phone : Option phone_source.State → Router → Router
  read_phone none r = record r { phone_buf = silence }
  read_phone (some s) r =
      let (status, frame, s') = phone_source.read s frame_samples in
      if is_failed status
      then apply_event source_failure (record r {
        phone = some s';
        phone_buf = silence;
        source_failures = add64 r.source_failures 1;
      })
      else record r { phone = some s'; phone_buf = frame }

  fill_phone : Bool → Router → Router
  unfolding read_phone
  fill_phone false r = record r { phone_buf = silence }
  fill_phone true r = read_phone r.phone r

  unfoldable pub read_sources : Router → Router
  unfolding fill_local fill_phone
  read_sources r =
      let hold = active f r.gate in
      let r' = fill_local (wants_local r.sm.state || hold) r in
      fill_phone (wants_phone r'.sm.state || hold) r'

  -- The limiter: the sample, and whether it was pulled back.
  unfoldable pub limit : f.F → f.F × Bool
  limit s =
      if f.lt f.ceiling s
      then (f.ceiling, true)
      else if f.lt s (f.neg f.ceiling)
      then (f.neg f.ceiling, true)
      else (s, false)

  abbrev first_or_zero : List f.F → f.F
  first_or_zero [] = f.zero
  first_or_zero (x ∷ xs) = x

  abbrev rest_of : List f.F → List f.F
  rest_of [] = []
  rest_of (x ∷ xs) = xs

  pub record Mixed : Type 0 where
    pub out : List f.F
    pub fade : Fade f
    pub gate : Fade f
    pub pulled_back : ℕ

  -- The loop of `mixAndWrite`, over `n` samples of the two buffers.
  unfoldable pub mix_loop : RouterConfig → ℕ → List f.F → List f.F → Fade f → Fade f → Mixed
  mix_loop cfg zero ls ps fade gate = record { out = []; fade = fade; gate = gate; pulled_back = 0 }
  mix_loop cfg (suc n) ls ps fade gate =
      let fade' = advance f fade in
      let gate' = advance f gate in
      let g = fade_gains f fade' in
      let mixed =
        f.add (f.mul (f.mul (first_or_zero ls) g.local) cfg.local_gain_linear)
          (f.mul (f.mul (first_or_zero ps) g.phone) cfg.phone_gain_linear) in
      let (s, pulled) = limit (f.mul mixed (ramp_gain f gate')) in
      let rest = mix_loop cfg n (rest_of ls) (rest_of ps) fade' gate' in
      record rest {
        out = s ∷ rest.out;
        pulled_back = if pulled then suc rest.pulled_back else rest.pulled_back;
      }

  unfoldable pub mix_and_write : Router → Router
  mix_and_write r =
      let m = mix_loop r.config frame_samples r.local_buf r.phone_buf r.fade r.gate in
      record r {
        out_buf = m.out;
        fade = m.fade;
        gate = m.gate;
        limited = add64 r.limited m.pulled_back;
      }

  -- The sink part of `tick`.
  write_to : Option output.State → Router → Bool × Router
  write_to none r = (true, r)
  write_to (some s) r =
      let (taken, s') = output.write s r.out_buf in
      (
        taken,
        record r {
          sink = some s';
          sink_failures = if taken then r.sink_failures else add64 r.sink_failures 1;
        },
      )

  write_sink : Router → Bool × Router
  unfolding write_to
  write_sink r = write_to r.sink r

  finish_fade : Router → Router
  finish_fade r =
      if is_state r.sm.state returning_to_local && (if active f r.fade then false else true)
      then apply_event fade_complete r
      else r

  count_frame : Router → Router
  count_frame r =
      let next = add64 r.frame_index 1 in record r { frame_index = next; frames_produced = next }

  -- The queue holds at most its capacity, so one round more than that drains it.
  unfoldable pub drained : Router → Router
  drained r = drain_events (suc r.events.capacity) r

  -- `tick` up to the write.
  render : Router → Router
  unfolding count_frame
  render r = count_frame (mix_and_write (read_sources (update_timers (drained r))))

  unfoldable pub tick : Router → Bool × Router
  unfolding render write_sink finish_fade
  tick r = let (ok, r') = write_sink (render r) in (ok, finish_fade r')
