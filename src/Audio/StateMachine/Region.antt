-- ===== src/Audio/StateMachine/Region.antt =====
-- source_state_machine.cpp: the region of the state graph that each routing mode confines the
-- machine to, and what a single event can do.
use smartmic_windows.Prelude.{Bool, true, false, List, [], ◌∷◌, ◌≡◌, refl, ◌↔◌, ◌≢◌, arith}
use smartmic_windows.Audio.StateMachine.{
  SourceState, RoutingMode, Event, SourceStateMachine, local_active, phone_arming, phone_active,
  returning_to_local, muted, error_recovery, auto, mute, mode_auto, mode_phone_only,
  mode_local_only, mode_mute, source_failure, recovered, initial, resting_state_for, apply, run,
}

-- The states that a mode allows. Error recovery belongs to every region.
abbrev pub in_region : RoutingMode → SourceState → Bool
in_region m error_recovery = true
in_region auto local_active = true
in_region auto phone_arming = true
in_region auto phone_active = true
in_region auto returning_to_local = true
in_region RoutingMode.phone_only SourceState.phone_only = true
in_region RoutingMode.local_only SourceState.local_only = true
in_region mute muted = true
in_region _ _ = false

abbrev pub InRegion : SourceStateMachine → Type 0
InRegion sm = in_region sm.mode sm.state ≡ true

-- The event that `setMode` posts for a mode.
abbrev pub mode_event : RoutingMode → Event
mode_event auto = mode_auto
mode_event RoutingMode.phone_only = mode_phone_only
mode_event RoutingMode.local_only = mode_local_only
mode_event mute = mode_mute

pub apply-InRegion : (sm : SourceStateMachine) (e : Event) → InRegion sm → InRegion (apply sm e).1
unfolding apply
apply-InRegion sm e h = ground arith

run_from-InRegion : (sm : SourceStateMachine) (es : List Event) → InRegion sm → InRegion (run sm es)
unfolding run
run_from-InRegion sm [] h = h
run_from-InRegion sm (e ∷ es) h = run_from-InRegion (apply sm e).1 es (apply-InRegion sm e h)

-- After any sequence of events the state lies in the region of the current mode: push-to-talk
-- states occur in Auto only, and each other mode allows its resting state and error recovery.
pub run-InRegion : (es : List Event) → InRegion (run initial es)
run-InRegion es = run_from-InRegion initial es refl

-- From every state, a mode event is accepted, selects the mode and enters the mode's resting
-- state; so does the recovery that follows any source failure under that mode.
pub mode_wins :
    (sm : SourceStateMachine) (m : RoutingMode)
    → let (t, sm') = apply sm (mode_event m) in
      (t.accepted ≡ true)
      × (sm' ≡ record { state = resting_state_for m; mode = m })
      × ((apply (apply sm' source_failure).1 recovered).1 ≡ sm')
unfolding apply
mode_wins sm m = ground arith

-- The report of `apply` is exact on every branch: `from` is the old state and `to` the new one,
-- `changed` holds exactly when they differ, and a rejected event leaves state and mode alone.
pub apply_reports :
    (sm : SourceStateMachine) (e : Event)
    → let (t, sm') = apply sm e in
      (t.from ≡ sm.state)
      × (t.to ≡ sm'.state)
      × ((t.changed ≡ true) ↔ (sm'.state ≢ sm.state))
      × (t.accepted ≡ false → sm' ≡ sm)
unfolding apply
apply_reports sm e =
    (ground arith, ground arith, (λ h. ground arith, λ h. ground arith), λ h. ground arith)
