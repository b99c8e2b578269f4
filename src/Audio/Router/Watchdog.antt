-- ===== src/Audio/Router/Watchdog.antt =====
-- router.cpp: what `updateTimers` makes of the state, on every branch.
use smartmic_windows.Prelude.{◌≡◌, refl, Bool, ◌&&◌, arith, if◌then◌else◌, ltb, sub64, add64}
use smartmic_windows.Audio.Float.{Float}
use smartmic_windows.Audio.Io.{AudioSource, AudioSink}
use smartmic_windows.Audio.StateMachine.{
  SourceState, RoutingMode, SourceStateMachine, apply, resting_state_for, local_active,
  phone_arming, phone_active, returning_to_local, muted, error_recovery, recovered, arm_timeout,
  phone_lost,
}
use smartmic_windows.Audio.Router.{Router, update_timers, arm_expired, check_heartbeat, frames_for}
use smartmic_windows.Audio.Router.Frame.{apply_event-sm}

-- What the timers make of a state, given which of them have run out.
abbrev pub timed : Bool → Bool → RoutingMode → SourceState → SourceState
timed overdue stale m error_recovery = resting_state_for m
timed overdue stale m phone_arming = if overdue then error_recovery else phone_arming
timed overdue stale m phone_active = if stale then returning_to_local else phone_active
timed overdue stale m s = s

-- What `apply` makes of the three events of the timers.
Moves : SourceState → SourceStateMachine → SourceStateMachine → Type 0
Moves to sm sm' = (sm'.state ≡ to) × (sm'.mode ≡ sm.mode)

recovered-Moves :
    (sm : SourceStateMachine)
    → sm.state ≡ error_recovery
    → Moves (resting_state_for sm.mode) sm (apply sm recovered).1
unfolding Moves apply
recovered-Moves sm e = (ground arith, ground arith)

arm_timeout-Moves :
    (sm : SourceStateMachine)
    → sm.state ≡ phone_arming
    → Moves error_recovery sm (apply sm arm_timeout).1
unfolding Moves apply
arm_timeout-Moves sm e = (ground arith, ground arith)

phone_lost-Moves :
    (sm : SourceStateMachine)
    → sm.state ≡ phone_active
    → Moves returning_to_local sm (apply sm phone_lost).1
unfolding Moves apply
phone_lost-Moves sm e = (ground arith, ground arith)

module _ {f : Float} {ls ps : AudioSource f} {out : AudioSink f} where
  -- No heartbeat for longer than the timeout.
  abbrev pub is_stale : Router ls ps out → Bool
  is_stale r =
      ltb r.last_heartbeat_frame r.frame_index
      && ltb (frames_for r.config.phone_lost_timeout_ms)
          (sub64 r.frame_index r.last_heartbeat_frame)

  -- Armed for longer than the timeout.
  abbrev pub is_overdue : Router ls ps out → Bool
  is_overdue r = ltb (frames_for r.config.arm_timeout_ms) (sub64 r.frame_index r.arm_started_frame)

  -- The timers, on every branch: error recovery lasts no longer than to the next tick, which enters the
  -- resting state of the mode; arming that has waited too long goes to error recovery; an active phone
  -- that has been silent too long is left for the local source; nothing else changes state, and no
  -- timer changes the mode.
  pub update_timers_lem :
      (r : Router ls ps out)
      → let sm' = (update_timers ls ps out r).sm in
        (sm'.state ≡ timed (is_overdue r) (is_stale r) r.sm.mode r.sm.state)
        × (sm'.mode ≡ r.sm.mode)
  unfolding update_timers check_heartbeat arm_expired Moves
  update_timers_lem r = go r.sm.state refl
    where
      late : Router ls ps out
      late = record r { arm_timeouts = add64 r.arm_timeouts 1 }

      lost : Router ls ps out
      lost = record r { phone_lost_events = add64 r.phone_lost_events 1 }

      go :
          (s : SourceState)
          → r.sm.state ≡ s
          → ((update_timers ls ps out r).sm.state ≡ timed (is_overdue r) (is_stale r) r.sm.mode s)
            × ((update_timers ls ps out r).sm.mode ≡ r.sm.mode)
      go error_recovery e =
          let a = apply_event-sm recovered r in
          let m = recovered-Moves r.sm e in (ground arith, ground arith)
      go phone_arming e =
          let a = apply_event-sm arm_timeout late in
          let m = arm_timeout-Moves r.sm e in (ground arith, ground arith)
      go phone_active e =
          let a = apply_event-sm phone_lost lost in
          let m = phone_lost-Moves r.sm e in (ground arith, ground arith)
      go local_active e = (ground arith, ground arith)
      go returning_to_local e = (ground arith, ground arith)
      go SourceState.phone_only e = (ground arith, ground arith)
      go SourceState.local_only e = (ground arith, ground arith)
      go muted e = (ground arith, ground arith)
