-- ===== src/Driver/Stream/Events.antt =====
-- minwavestream.cpp: the notification events that are registered.
use smartmic_windows.Prelude.{
  ℕ, suc, ◌≤◌, ◌<◌, ◌^◌, ◌≡◌, ◌≢◌, refl, true, false, List, [], ◌∷◌, arith, length, ◌==◌,
  if◌then◌else◌, Bool-cases, inl, inr,
}
use smartmic_windows.Driver.Status.{success}
use smartmic_windows.Driver.Stream.{
  Stream, holds, put_over, registered, register_event, unregister_event,
}

-- How often a list holds an event.
abbrev pub occurrences : ℕ → List ℕ → ℕ
occurrences e [] = 0
occurrences e (x ∷ xs) = if x == e then suc (occurrences e xs) else occurrences e xs

-- The count is that of the entries in use, and no event has two entries.
pub record IsRegistry (es : List ℕ) (count : ℕ) : Type 0 where
  pub counted : count ≡ length (registered es)
  pub once : (e : ℕ) → e ≢ 0 → occurrences e es ≤ 1
  pub room : length es ≡ 4

-- A null entry taken by `e` and given up again leaves the table as it was.
put_over_back :
    (e : ℕ) (es : List ℕ) → e ≢ 0 → holds e es ≡ false → put_over e 0 (put_over 0 e es) ≡ es
put_over_back e [] h none = refl
put_over_back e (x ∷ xs) h none = ground (arith, put_over_back e xs h)

holds-put_over : (e : ℕ) (es : List ℕ) → holds 0 es ≡ true → holds e (put_over 0 e es) ≡ true
holds-put_over e [] some_free = some_free
holds-put_over e (x ∷ xs) some_free = ground (arith, holds-put_over e xs)

-- An event other than NULL that was registered and is then unregistered: the call succeeds, and
-- the whole stream is as it was before the registration.
pub unregister_event-register_event :
    (e : ℕ) (s : Stream)
    → e ≢ 0
    → s.notification_event_count < 2 ^ 32
    → (register_event e s).0 ≡ success
    → unregister_event e (register_event e s).1 ≡ (success, s)
unfolding register_event unregister_event
unregister_event-register_event e s h word ok =
    ground (arith, put_over_back e s.notification_events h, holds-put_over e s.notification_events)

length-put_over : (e e' : ℕ) (es : List ℕ) → length (put_over e e' es) ≡ length es
length-put_over e e' [] = refl
length-put_over e e' (x ∷ xs) = ground (arith, length-put_over e e' xs)

length-registered_put :
    (e : ℕ) (es : List ℕ)
    → e ≢ 0
    → holds 0 es ≡ true
    → length (registered (put_over 0 e es)) ≡ suc (length (registered es))
length-registered_put e [] h some_free = ground arith
length-registered_put e (x ∷ xs) h some_free = ground (arith, length-registered_put e xs h)

length-registered_drop :
    (e : ℕ) (es : List ℕ)
    → e ≢ 0
    → holds e es ≡ true
    → suc (length (registered (put_over e 0 es))) ≡ length (registered es)
length-registered_drop e [] h there = ground arith
length-registered_drop e (x ∷ xs) h there = ground (arith, length-registered_drop e xs h)

length-registered : (es : List ℕ) → length (registered es) ≤ length es
length-registered [] = omega arith
length-registered (x ∷ xs) = ground (arith, length-registered xs)

none_of : (e : ℕ) (es : List ℕ) → holds e es ≡ false → occurrences e es ≡ 0
none_of e [] h = refl
none_of e (x ∷ xs) h = ground (arith, none_of e xs)

occurrences-put :
    (d e : ℕ) (es : List ℕ)
    → d ≢ 0
    → occurrences d (put_over 0 e es)
      ≤ (if e == d then suc (occurrences d es) else occurrences d es)
occurrences-put d e [] h = ground arith
occurrences-put d e (x ∷ xs) h = ground (arith, occurrences-put d e xs h)

occurrences-drop :
    (d e : ℕ) (es : List ℕ) → d ≢ 0 → occurrences d (put_over e 0 es) ≤ occurrences d es
occurrences-drop d e [] h = omega arith
occurrences-drop d e (x ∷ xs) h = ground (arith, occurrences-drop d e xs h)

pub register_event-IsRegistry :
    (e : ℕ) (s : Stream)
    → e ≢ 0
    → IsRegistry s.notification_events s.notification_event_count
    → let s' = (register_event e s).1 in
      IsRegistry s'.notification_events s'.notification_event_count
unfolding register_event
register_event-IsRegistry e s h v = elim (Bool-cases (holds e es)) [
  | inl there ↦ simp there v
  | inr new ↦ elim (Bool-cases (holds 0 es)) [
    | inr full ↦ simp (new, full) v
    | inl some_free ↦
        simp (new, some_free)
          (record {
            counted =
                let bound : length (registered es) ≤ 4 =
                  omega (arith, length-registered es, v.room) in
                omega (arith, length-registered_put e es h some_free, v.counted, bound);
            once = λ d hd. ground (arith, occurrences-put d e es hd, none_of e es new, v.once d hd);
            room = omega (arith, length-put_over 0 e es, v.room);
          })
  ]
]
  where
    es : List ℕ
    es = s.notification_events

pub unregister_event-IsRegistry :
    (e : ℕ) (s : Stream)
    → e ≢ 0
    → IsRegistry s.notification_events s.notification_event_count
    → let s' = (unregister_event e s).1 in
      IsRegistry s'.notification_events s'.notification_event_count
unfolding unregister_event
unregister_event-IsRegistry e s h v = elim (Bool-cases (holds e es)) [
  | inr absent ↦ simp absent v
  | inl there ↦ simp there (record {
    counted =
        let bound : length (registered es) ≤ 4 = omega (arith, length-registered es, v.room) in
        omega (arith, length-registered_drop e es h there, v.counted, bound);
    once = λ d hd. omega (arith, occurrences-drop d e es hd, v.once d hd);
    room = omega (arith, length-put_over e 0 es, v.room);
  })
]
  where
    es : List ℕ
    es = s.notification_events
