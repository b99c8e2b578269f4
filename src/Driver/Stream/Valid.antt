-- ===== src/Driver/Stream/Valid.antt =====
-- minwavestream.cpp: each operation keeps a valid stream valid.
use smartmic_windows.Prelude.{
  ℕ, zero, ◌^◌, ◌<◌, ◌≡◌, ◌≢◌, ◌⊎◌, inl, inr, sym, Bool, true, List, [], Option, none, some, arith,
  ◌==◌, replicate, length-replicate, Bool-cases, Option-cases, drop, not, ◌||◌, length-append,
  length-drop, subst,
}
use smartmic_windows.Driver.Status.{unsuccessful}
use smartmic_windows.Driver.Stream.{
  Stream, KsState, holds, open_ring, rounded_size, place_buffer, with_buffer, allocate,
  free_buffer_internal, start_timer, stop_timer, register_event, unregister_event, set_state,
  on_timer_tick, clear, tick_live, stop, run, acquire, pause,
}
use smartmic_windows.Driver.Stream.Fits.{IsPeriodic, Fits, tick_live-Fits}
use smartmic_windows.Driver.Stream.Events.{IsRegistry}
use smartmic_windows.Driver.Stream.Sizes.{rounded_size-IsPeriodic}

abbrev pub FitsOf : Stream → Type 0
FitsOf s = Fits s.buffer s.buffer_bytes s.bytes_per_notification s.write_offset

pub register_event-Fits : (e : ℕ) (s : Stream) → FitsOf s → FitsOf (register_event e s).1
unfolding register_event
register_event-Fits e s f = elim (Bool-cases (holds e s.notification_events)) [
  | inl there ↦ simp there f
  | inr new ↦ elim (Bool-cases (holds 0 s.notification_events)) [
    | inl free ↦ simp (new, free) f
    | inr full ↦ simp (new, full) f
  ]
]

pub unregister_event-Fits : (e : ℕ) (s : Stream) → FitsOf s → FitsOf (unregister_event e s).1
unfolding unregister_event
unregister_event-Fits e s f = elim (Bool-cases (holds e s.notification_events)) [
  | inl there ↦ simp there f
  | inr absent ↦ simp absent f
]

-- The bytes of a buffer, if there is one.
abbrev pub held_bytes : Option (List ℕ) → List ℕ
held_bytes none = []
held_bytes (some b) = b

-- What a valid stream keeps: the buffer, and the table of events.
pub record IsValid (s : Stream) : Type 0 where
  pub fits : Fits s.buffer s.buffer_bytes s.bytes_per_notification s.write_offset
  pub registry : IsRegistry s.notification_events s.notification_event_count

place_buffer-cases :
    (a m : Bool) (count size : ℕ) (s : Stream)
    → ((place_buffer a m count size s).1 ≡ s)
      ⊎ ((size ≢ 0) × ((place_buffer a m count size s).1 ≡ with_buffer count size s))
unfolding place_buffer
place_buffer-cases a m count size s = ground arith

pub place_buffer-IsValid :
    (a m : Bool) (count requested size : ℕ) (s : Stream)
    → count ≢ 0
    → requested < 2 ^ 32
    → rounded_size count requested ≡ some size
    → IsValid s
    → IsValid (place_buffer a m count size s).1
unfolding with_buffer
place_buffer-IsValid a m count requested size s h hr found v =
    elim (place_buffer-cases a m count size s) [
      | inl same ↦ subst IsValid (sym same) v
      | inr (some_bytes, new) ↦ subst IsValid (sym new) (record {
        fits = (
          length-replicate size zero,
          rounded_size-IsPeriodic count requested size h hr found some_bytes,
        );
        registry = v.registry;
      })
    ]

free_buffer-cases :
    (s : Stream)
    → (free_buffer_internal s ≡ s)
      ⊎ (free_buffer_internal s ≡ record s { buffer = none; buffer_bytes = 0 })
unfolding free_buffer_internal
free_buffer-cases s = ground arith

pub free_buffer-IsValid : (s : Stream) → IsValid s → IsValid (free_buffer_internal s)
free_buffer-IsValid s v = elim (free_buffer-cases s) [
  | inl same ↦ subst IsValid (sym same) v
  | inr freed ↦ subst IsValid (sym freed) (record { fits = tt; registry = v.registry })
]

pub stop_timer-IsValid : (s : Stream) → IsValid s → IsValid (stop_timer s)
unfolding stop_timer
stop_timer-IsValid s v = elim (Bool-cases s.timer_running) [
  | inl e ↦ simp e (record { fits = v.fits; registry = v.registry })
  | inr e ↦ simp e v
]

start_timer-IsValid : (s : Stream) → IsValid s → IsValid (start_timer s)
unfolding start_timer
start_timer-IsValid s v = elim (Bool-cases s.timer_running) [
  | inl e ↦ simp e v
  | inr e ↦ simp e (record { fits = v.fits; registry = v.registry })
]

rewound : {bytes size offset : ℕ} → IsPeriodic bytes size offset → IsPeriodic bytes size 0
rewound p = record {
  periods = p.periods;
  done = 0;
  whole = p.whole;
  at_period = omega arith;
  before_end = omega (arith, p.before_end);
  word = p.word;
}

clear-Fits :
    (o : Option (List ℕ)) (bytes size offset : ℕ)
    → Fits o bytes size offset
    → Fits (clear o bytes) bytes size 0
clear-Fits none bytes size offset f = tt
clear-Fits (some b) bytes size offset (whole, parts) = (
  omega (
    arith,
    length-append (replicate bytes zero) (drop bytes b),
    length-replicate bytes zero,
    length-drop bytes b,
  ),
  elim parts [ inl empty ↦ inl empty | inr p ↦ inr (rewound p) ],
)

run_state-cases :
    (s : Stream)
    → ((set_state run s).1 ≡ s)
      ⊎ ((set_state run s).1
          ≡ record (start_timer (record s { ring = open_ring true s.ring })) { state = run })
unfolding set_state
run_state-cases s = ground arith

pub set_state-IsValid : (k : KsState) (s : Stream) → IsValid s → IsValid (set_state k s).1
unfolding set_state
set_state-IsValid stop s v =
    let w = stop_timer-IsValid s v in
    let s' = stop_timer s in
    record {
      fits = clear-Fits s'.buffer s'.buffer_bytes s'.bytes_per_notification s'.write_offset w.fits;
      registry = w.registry;
    }
set_state-IsValid acquire s v =
    let w = stop_timer-IsValid s v in record { fits = w.fits; registry = w.registry }
set_state-IsValid pause s v =
    let w = stop_timer-IsValid s v in record { fits = w.fits; registry = w.registry }
set_state-IsValid run s v =
    let w =
      start_timer-IsValid (record s { ring = open_ring true s.ring })
        (record { fits = v.fits; registry = v.registry }) in
    elim (run_state-cases s) [
      | inl same ↦ subst IsValid (sym same) v
      | inr runs ↦ subst IsValid (sym runs) (record { fits = w.fits; registry = w.registry })
    ]

pub on_timer_tick-cases :
    (now : ℕ) (s : Stream)
    → ((on_timer_tick now s).1 ≡ s)
      ⊎ ((b : List ℕ) × (s.buffer ≡ some b)
          × (s.bytes_per_notification ≢ 0)
          × ((on_timer_tick now s).1 ≡ (tick_live now b s).1))
unfolding on_timer_tick
on_timer_tick-cases now s = elim (Option-cases s.buffer) [
  | inl gone ↦ inl (ground (arith, gone))
  | inr (b, held) ↦ elim (Bool-cases (not s.timer_running || (s.bytes_per_notification == 0))) [
    | inl idle ↦ inl (ground (arith, held, idle))
    | inr busy ↦ inr (b, held, ground (arith, busy), ground (arith, held, busy))
  ]
]

pub on_timer_tick-IsValid : (now : ℕ) (s : Stream) → IsValid s → IsValid (on_timer_tick now s).1
on_timer_tick-IsValid now s v = elim (on_timer_tick-cases now s) [
  | inl same ↦ subst IsValid (sym same) v
  | inr (b, held, some_bytes, live) ↦
      let before =
        subst (λ o. Fits o s.buffer_bytes s.bytes_per_notification s.write_offset) held v.fits in
      subst IsValid (sym live) (
        unfold tick_live in
        record { fits = tick_live-Fits now b s some_bytes before; registry = v.registry })
]

pub allocate-cases :
    (a m : Bool) (count requested : ℕ) (s : Stream)
    → (allocate a m count requested s ≡ none)
      ⊎ ((allocate a m count requested s ≡ some (unsuccessful, s))
          ⊎ ((size : ℕ) × (count ≢ 0)
              × (rounded_size count requested ≡ some size)
              × (allocate a m count requested s ≡ some (place_buffer a m count size s))))
unfolding allocate
allocate-cases a m count requested s = elim (Bool-cases ((requested == 0) || (count == 0))) [
  | inl empty ↦ inr (inl (ground (arith, empty)))
  | inr full ↦ elim (Option-cases (rounded_size count requested)) [
    | inl traps ↦ inl (ground (arith, full, traps))
    | inr (size, found) ↦ inr (inr (size, ground (arith, full), found, ground (arith, full, found)))
  ]
]
