-- ===== src/Audio/StateMachine/Traces.antt =====
-- source_state_machine.cpp: what must have happened before the phone is heard.
use smartmic_windows.Prelude.{
  Bool, true, false, not, ◌&&◌, List, [], ◌∷◌, ◌≡◌, refl, sym, ◌⊎◌, inl, inr, arith,
}
use mathlib.Core.List.{Memᴰ}
use smartmic_windows.Audio.StateMachine.{
  SourceState, RoutingMode, Event, SourceStateMachine, phone_arming, phone_ready, start_ptt,
  mode_phone_only, initial, wants_phone, apply, run,
}

-- An `a` with a `b` somewhere after it.
abbrev pub Before : Event → Event → List Event → Type 0
Before a b [] = ⊥
Before a b (e ∷ es) = ((e ≡ a) × Memᴰ b es) ⊎ Before a b es

abbrev is_arming : SourceState → Bool
is_arming phone_arming = true
is_arming _ = false

abbrev in_phone_mode : RoutingMode → Bool
in_phone_mode RoutingMode.phone_only = true
in_phone_mode _ = false

-- The phone is neither heard nor about to be.
abbrev quiet : SourceStateMachine → Bool
quiet sm = not (wants_phone sm.state) && not (is_arming sm.state) && not (in_phone_mode sm.mode)

abbrev arming : SourceStateMachine → Bool
arming sm = is_arming sm.state && not (in_phone_mode sm.mode)

step_quiet :
    (sm : SourceStateMachine) (e : Event)
    → quiet sm ≡ true
    → (e ≡ mode_phone_only)
      ⊎ ((e ≡ start_ptt) × (arming (apply sm e).1 ≡ true))
      ⊎ (quiet (apply sm e).1 ≡ true)
unfolding apply
step_quiet sm e h = ground arith

step_arming :
    (sm : SourceStateMachine) (e : Event)
    → arming sm ≡ true
    → (e ≡ mode_phone_only)
      ⊎ (e ≡ phone_ready)
      ⊎ ((quiet (apply sm e).1 ≡ true) ⊎ (arming (apply sm e).1 ≡ true))
unfolding apply
step_arming sm e h = ground arith

Before-mem : (a b : Event) (es : List Event) → Before a b es → Memᴰ b es
Before-mem a b [] h = elim h [ ]
Before-mem a b (e ∷ es) (inl h) = Memᴰ.tail h.1
Before-mem a b (e ∷ es) (inr h) = Memᴰ.tail (Before-mem a b es h)

abbrev Heard : SourceStateMachine → List Event → Type 0
Heard sm es = wants_phone (run sm es).state ≡ true

mutual
  unfolding run

  Heard-quiet :
      (es : List Event) (sm : SourceStateMachine)
      → quiet sm ≡ true
      → Heard sm es
      → Before start_ptt phone_ready es ⊎ Memᴰ mode_phone_only es
  Heard-quiet [] sm q w = ground arith
  Heard-quiet (e ∷ es) sm q w = elim (step_quiet sm e q) [
    | inl m ↦ inr (Memᴰ.head (sym m))
    | inr (inl (s, a)) ↦ elim (heard_arming es (apply sm e).1 a w) [
      | inl r ↦ inl (inl (s, r))
      | inr m ↦ inr (Memᴰ.tail m)
    ]
    | inr (inr q') ↦ elim (Heard-quiet es (apply sm e).1 q' w) [
      | inl b ↦ inl (inr b)
      | inr m ↦ inr (Memᴰ.tail m)
    ]
  ]

  heard_arming :
      (es : List Event) (sm : SourceStateMachine)
      → arming sm ≡ true
      → Heard sm es
      → Memᴰ phone_ready es ⊎ Memᴰ mode_phone_only es
  heard_arming [] sm a w = ground arith
  heard_arming (e ∷ es) sm a w = elim (step_arming sm e a) [
    | inl m ↦ inr (Memᴰ.head (sym m))
    | inr (inl r) ↦ inl (Memᴰ.head (sym r))
    | inr (inr (inl q)) ↦ elim (Heard-quiet es (apply sm e).1 q w) [
      | inl b ↦ inl (Memᴰ.tail (Before-mem start_ptt phone_ready es b))
      | inr m ↦ inr (Memᴰ.tail m)
    ]
    | inr (inr (inr a')) ↦ elim (heard_arming es (apply sm e).1 a' w) [
      | inl r ↦ inl (Memᴰ.tail r)
      | inr m ↦ inr (Memᴰ.tail m)
    ]
  ]

-- The phone is wanted only if the user acted: whenever `wantsPhone` holds after a sequence of
-- events, that sequence has a start of push-to-talk with a phone-ready after it, or a switch to
-- the phone-only mode.
pub phone_needs_consent :
    (es : List Event)
    → wants_phone (run initial es).state ≡ true
    → Before start_ptt phone_ready es ⊎ Memᴰ mode_phone_only es
phone_needs_consent es w = Heard-quiet es initial refl w
