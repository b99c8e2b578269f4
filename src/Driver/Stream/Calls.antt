-- ===== src/Driver/Stream/Calls.antt =====
-- minwavestream.cpp: what every sequence of calls on a stream keeps true.
use smartmic_windows.Prelude.{
  ℕ, ◌+◌, ◌^◌, ◌≤◌, ◌<◌, ◌≡◌, ◌≢◌, inl, inr, refl, ap, sym, Bool, List, [], ◌∷◌, Option, none, some,
  arith, length, replicate, Bool-cases, Option-cases, ◌∙◌, All, subst,
}
use smartmic_windows.Driver.Ring.{Ring}
use smartmic_windows.Driver.Status.{Status}
use smartmic_windows.Driver.Stream.{
  Stream, KsState, Format, init, is_endpoint_format, allocate, allocate_audio_buffer,
  free_audio_buffer, free_buffer_with_notification, register_event, unregister_event, set_state,
  on_timer_tick, tick_live,
}
use smartmic_windows.Driver.Stream.Fits.{Fits, period_inside, tick_live-Fits}
use smartmic_windows.Driver.Stream.Events.{
  IsRegistry, register_event-IsRegistry, unregister_event-IsRegistry,
}
use smartmic_windows.Driver.Stream.Valid.{
  held_bytes, IsValid, register_event-Fits, unregister_event-Fits, allocate-cases,
  free_buffer-IsValid, stop_timer-IsValid, set_state-IsValid, on_timer_tick-IsValid,
  on_timer_tick-cases, place_buffer-IsValid,
}

-- The calls on a stream: what the memory manager answers and the clock are part of them.
pub data Call : Type 0 where
  allocates : Bool → Bool → ℕ → ℕ → Call
  frees frees_with_notification : Call
  registers unregisters : ℕ → Call
  sets_state : KsState → Call
  ticks : ℕ → Call

-- A call, or none where it traps.
unfoldable pub step : Call → Stream → Option Stream
unfolding allocate free_audio_buffer free_buffer_with_notification register_event unregister_event
    set_state on_timer_tick
step (allocates can_allocate can_map count requested) s =
    elim (allocate can_allocate can_map count requested s) [
      | none ↦ none
      | some (status, s') ↦ some s'
    ]
step frees s = some (free_audio_buffer s)
step frees_with_notification s = some (free_buffer_with_notification s)
step (registers e) s = some (register_event e s).1
step (unregisters e) s = some (unregister_event e s).1
step (sets_state k) s = some (set_state k s).1
step (ticks now) s = some (on_timer_tick now s).1

-- The arguments that a caller may pass: words, and events other than NULL.
abbrev pub IsProper : Call → Type 0
IsProper (allocates a m count requested) = (count < 2 ^ 32) × (requested < 2 ^ 32)
IsProper (registers e) = e ≢ 0
IsProper (unregisters e) = e ≢ 0
IsProper _ = Unit

the_same : {s s' : Stream} → some s ≡ some s' → s ≡ s'
the_same e = cc

stepped :
    (o : Option (Status × Stream)) {t : Status × Stream} {s' : Stream}
    → o ≡ some t
    → elim o [ none ↦ none | some (status, s') ↦ some s' ] ≡ some s'
    → some t.1 ≡ some s'
stepped none found done = ground arith
stepped (some x) found done = ground arith

step-IsValid : (c : Call) (s s' : Stream) → IsProper c → IsValid s → step c s ≡ some s' → IsValid s'
unfolding step allocate allocate_audio_buffer free_audio_buffer free_buffer_with_notification
step-IsValid (allocates a m count requested) s s' (word, words) v done =
    elim (allocate-cases a m count requested s) [
      | inl traps ↦ ground (arith, traps, done)
      | inr (inl refused) ↦
          subst IsValid (the_same (stepped (allocate a m count requested s) refused done)) v
      | inr (inr (size, h, found, placed)) ↦
          subst IsValid (the_same (stepped (allocate a m count requested s) placed done))
            (place_buffer-IsValid a m count requested size s h words found v)
    ]
step-IsValid frees s s' proper v done = subst IsValid (the_same done) (free_buffer-IsValid s v)
step-IsValid frees_with_notification s s' proper v done =
    subst IsValid (the_same done) (free_buffer-IsValid _ (stop_timer-IsValid s v))
step-IsValid (registers e) s s' proper v done = subst IsValid (the_same done) (record {
  fits = register_event-Fits e s v.fits;
  registry = register_event-IsRegistry e s proper v.registry;
})
step-IsValid (unregisters e) s s' proper v done = subst IsValid (the_same done) (record {
  fits = unregister_event-Fits e s v.fits;
  registry = unregister_event-IsRegistry e s proper v.registry;
})
step-IsValid (sets_state k) s s' proper v done =
    subst IsValid (the_same done) (set_state-IsValid k s v)
step-IsValid (ticks now) s s' proper v done =
    subst IsValid (the_same done) (on_timer_tick-IsValid now s v)

-- A sequence of calls, up to a trap.
unfoldable pub steps : List Call → Stream → Option Stream
unfolding step
steps [] s = some s
steps (c ∷ cs) s = elim (step c s) [ none ↦ none | some s' ↦ steps cs s' ]

steps-IsValid :
    (cs : List Call) (s s' : Stream)
    → All IsProper cs
    → IsValid s
    → steps cs s ≡ some s'
    → IsValid s'
unfolding steps
steps-IsValid [] s s' proper v done = subst IsValid (the_same done) v
steps-IsValid (c ∷ cs) s s' (p, ps) v done = elim (Option-cases (step c s)) [
  | inl traps ↦ ground (arith, traps, done)
  | inr (t, e) ↦ steps-IsValid cs t s' ps (step-IsValid c s t p v e) (ground (arith, e, done))
]

init-IsValid : (pin : ℕ) (capture : Bool) (f : Format) (r : Ring) → IsValid (init pin capture f r).1
unfolding init
init-IsValid pin capture f r = elim (Bool-cases (is_endpoint_format f)) [
  | inl e ↦ simp e (record { fits = tt; registry = empty })
  | inr e ↦ simp e (record { fits = tt; registry = empty })
]
  where
    empty : IsRegistry (replicate 4 0) 0
    empty = record { counted = refl; once = λ e h. ground arith; room = refl }

period_ends_inside :
    (b : List ℕ) (bytes size offset : ℕ)
    → size ≢ 0
    → Fits (some b) bytes size offset
    → offset + size ≤ length b
period_ends_inside b bytes size offset h (whole, inl empty) = absurd (h empty)
period_ends_inside b bytes size offset h (whole, inr p) = omega (arith, whole, period_inside p)

tick_keeps :
    (now : ℕ) (s : Stream) {b : List ℕ}
    → s.buffer ≡ some b
    → Fits (some b) s.buffer_bytes s.bytes_per_notification s.write_offset
    → length (held_bytes (on_timer_tick now s).1.buffer) ≡ length b
tick_keeps now s {b} held fits = elim (on_timer_tick-cases now s) [
  | inl same ↦ ap (λ t. length (held_bytes t.buffer)) same ∙ ap (λ o. length (held_bytes o)) held
  | inr (b', held', some_bytes, live) ↦
      let there : b ≡ b' = ap held_bytes (sym held ∙ held') in
      let after = tick_live-Fits now b s some_bytes fits in
      let kept : length (held_bytes (tick_live now b s).1.buffer) ≡ s.buffer_bytes =
        unfold tick_live in after.0 in
      ap (λ t. length (held_bytes t.buffer)) live
      ∙ ap (λ l. length (held_bytes (tick_live now l s).1.buffer)) (sym there)
      ∙ kept
      ∙ sym fits.0
]

-- From `Init`, after any calls that do not trap, in any order and with any sizes and counts, the
-- events other than NULL: while a buffer is held and its periods are not empty, the period that
-- the next tick writes lies inside the buffer, and the tick leaves the buffer's length as it is;
-- no event has two entries in the table, and the count is the number of entries in use.
pub ticks_stay_inside :
    (pin : ℕ) (capture : Bool) (f : Format) (r : Ring) (cs : List Call) {s : Stream} {b : List ℕ}
    → All IsProper cs
    → steps cs (init pin capture f r).1 ≡ some s
    → s.buffer ≡ some b
    → s.bytes_per_notification ≢ 0
    → IsRegistry s.notification_events s.notification_event_count
      × (s.write_offset + s.bytes_per_notification ≤ length b)
      × ((now : ℕ) → length (held_bytes (on_timer_tick now s).1.buffer) ≡ length b)
ticks_stay_inside pin capture f r cs {s} {b} proper ran held some_bytes =
    let v = steps-IsValid cs _ s proper (init-IsValid pin capture f r) ran in
    let fits =
      subst (λ o. Fits o s.buffer_bytes s.bytes_per_notification s.write_offset) held v.fits in
    (
      v.registry,
      period_ends_inside b s.buffer_bytes s.bytes_per_notification s.write_offset some_bytes fits,
      λ now. tick_keeps now s held fits,
    )
