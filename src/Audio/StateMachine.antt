-- ===== src/Audio/StateMachine.antt =====
-- windows/audio-service/src/source_state_machine.cpp and its header: the authoritative
-- push-to-talk state machine. A method that changes the machine returns the new machine.
pub mod Region
pub mod Traces
use smartmic_windows.Prelude.{Bool, true, false, Option, none, some, List, [], ◌∷◌}

-- `enum class SourceState`.
pub data SourceState : Type 0 where
  local_active phone_arming phone_active returning_to_local : SourceState
  phone_only local_only muted error_recovery : SourceState

-- `enum class RoutingMode`.
pub data RoutingMode : Type 0 where
  auto phone_only local_only mute : RoutingMode

-- `enum class Event`, in the order of the source.
pub data Event : Type 0 where
  start_ptt stop_ptt phone_ready phone_lost arm_timeout fade_complete : Event
  source_failure recovered : Event
  mode_auto mode_phone_only mode_local_only mode_mute : Event

pub record Transition : Type 0 where
  pub accepted : Bool
  pub from : SourceState
  pub to : SourceState
  pub changed : Bool

pub record SourceStateMachine : Type 0 where
  pub state : SourceState
  pub mode : RoutingMode

-- The member initialisers of the class.
abbrev pub initial : SourceStateMachine
initial = record { state = local_active; mode = auto }

abbrev pub resting_state_for : RoutingMode → SourceState
resting_state_for auto = local_active
resting_state_for RoutingMode.phone_only = SourceState.phone_only
resting_state_for RoutingMode.local_only = SourceState.local_only
resting_state_for mute = muted

-- The assignments to `mode_`, made by the four mode events.
abbrev pub mode_after : RoutingMode → Event → RoutingMode
mode_after m mode_auto = auto
mode_after m mode_phone_only = RoutingMode.phone_only
mode_after m mode_local_only = RoutingMode.local_only
mode_after m mode_mute = mute
mode_after m _ = m

-- `case Event::StartPtt`: only meaningful in Auto.
abbrev start_target : RoutingMode → SourceState → SourceState
start_target auto local_active = phone_arming
start_target auto returning_to_local = phone_arming
start_target _ from = from

-- `case Event::StopPtt`.
abbrev stop_target : RoutingMode → SourceState → SourceState
stop_target auto phone_active = returning_to_local
stop_target auto phone_arming = local_active
stop_target _ from = from

-- The switch of `apply`: the target state, or `none` where `accepted` becomes false.
abbrev target : RoutingMode → SourceState → Event → Option SourceState
target m from mode_auto = some local_active
target m from mode_phone_only = some SourceState.phone_only
target m from mode_local_only = some SourceState.local_only
target m from mode_mute = some muted
target m from start_ptt = some (start_target m from)
target m from stop_ptt = some (stop_target m from)
target m phone_arming phone_ready = some phone_active
target m phone_active phone_ready = some phone_active
target m SourceState.phone_only phone_ready = some SourceState.phone_only
target m _ phone_ready = none
target m phone_active phone_lost = some returning_to_local
target m phone_arming phone_lost = some error_recovery
target m SourceState.phone_only phone_lost = some SourceState.phone_only
target m _ phone_lost = none
target m phone_arming arm_timeout = some error_recovery
target m _ arm_timeout = none
target m returning_to_local fade_complete = some local_active
target m _ fade_complete = none
target m from source_failure = some error_recovery
target m error_recovery recovered = some (resting_state_for m)
target m _ recovered = none

pub SourceState-discrete : Discrete SourceState
SourceState-discrete = hlevel

-- `from != to`.
abbrev differs : SourceState → SourceState → Bool
differs a b = elim (SourceState-discrete a b) [ yes p ↦ false | no p ↦ true ]

unfoldable pub apply : SourceStateMachine → Event → Transition × SourceStateMachine
unfolding SourceState-discrete
apply sm e = elim (target sm.mode sm.state e) [
  | some to ↦ (
    record { accepted = true; from = sm.state; to = to; changed = differs sm.state to },
    record { state = to; mode = mode_after sm.mode e },
  )
  | none ↦ (
    record { accepted = false; from = sm.state; to = sm.state; changed = false },
    record sm { mode = mode_after sm.mode e },
  )
]

abbrev pub wants_phone : SourceState → Bool
wants_phone phone_active = true
wants_phone returning_to_local = true
wants_phone SourceState.phone_only = true
wants_phone _ = false

abbrev pub wants_local : SourceState → Bool
wants_local local_active = true
wants_local SourceState.local_only = true
wants_local phone_arming = true
wants_local phone_active = true
wants_local returning_to_local = true
wants_local _ = false

-- The machine after a sequence of events.
unfoldable pub run : SourceStateMachine → List Event → SourceStateMachine
run sm [] = sm
run sm (e ∷ es) = run (apply sm e).1 es
