-- ===== src/Audio/Router/Unarmed.antt =====
-- router.cpp in the phone-only mode: what the control surface and a tick do to a router that does not
-- wait for the phone.
use smartmic_windows.Prelude.{
  ℕ, zero, suc, ◌≡◌, refl, sym, ap, ◌∙◌, subst, Bool, true, false, ◌&&◌, ◌||◌, not, List, [], ◌∷◌,
  ◌++◌, All, Option, none, some, arith, drop, if◌then◌else◌, add64,
}
use smartmic_windows.Audio.Float.{Float}
use smartmic_windows.Audio.Io.{AudioSource, AudioSink}
use smartmic_windows.Audio.Crossfade.{active, frame_samples}
use smartmic_windows.Audio.RingBuffer.Refine.{IsValid, contents, write_refines, length-contents}
use smartmic_windows.Audio.StateMachine.{
  RoutingMode, SourceStateMachine, Event, apply, phone_arming, recovered, arm_timeout, phone_lost,
  source_failure, fade_complete, mode_auto, mode_phone_only, mode_local_only, mode_mute,
  wants_local, wants_phone,
}
use smartmic_windows.Audio.Router.{
  Router, is_failed, silence, is_state, code, event_of, apply_event, post, drained, update_timers,
  check_heartbeat, read_sources, fill_local, fill_phone, read_local, read_phone, mix_and_write,
  write_sink, write_to, finish_fade, count_frame, render, tick,
}
use smartmic_windows.Audio.Router.Drain.{
  run_raw, step_raw, step_option, event_of-code, Drained, drain_events-Drained,
}
use smartmic_windows.Audio.Router.Frame.{apply_event-sm, apply_event-events}

abbrev pub is_mode_event : Event → Bool
is_mode_event mode_auto = true
is_mode_event mode_phone_only = true
is_mode_event mode_local_only = true
is_mode_event mode_mute = true
is_mode_event _ = false

abbrev is_phone_only : RoutingMode → Bool
is_phone_only RoutingMode.phone_only = true
is_phone_only _ = false

-- In the phone-only mode, and not waiting for the phone.
abbrev pub is_unarmed : SourceStateMachine → Bool
is_unarmed sm = is_phone_only sm.mode && not (is_state sm.state phone_arming)

apply-unarmed :
    (sm : SourceStateMachine) (e : Event)
    → is_mode_event e ≡ false
    → is_unarmed sm ≡ true
    → is_unarmed (apply sm e).1 ≡ true
unfolding apply
apply-unarmed sm e inner h = ground arith

-- A code in the queue that changes no mode.
abbrev is_inner : Option Event → Bool
is_inner none = true
is_inner (some e) = not (is_mode_event e)

abbrev pub Inner : ℕ → Type 0
Inner raw = is_inner (event_of raw) ≡ true

step_option-unarmed :
    (o : Option Event) (sm : SourceStateMachine)
    → is_inner o ≡ true
    → is_unarmed sm ≡ true
    → is_unarmed (step_option o sm) ≡ true
step_option-unarmed none sm inner h = h
step_option-unarmed (some e) sm inner h = apply-unarmed sm e (ground (arith, inner)) h

run_raw-unarmed :
    (raws : List ℕ) (sm : SourceStateMachine)
    → All Inner raws
    → is_unarmed sm ≡ true
    → is_unarmed (run_raw raws sm) ≡ true
run_raw-unarmed [] sm inner h = h
run_raw-unarmed (raw ∷ raws) sm (inner, more) h =
    run_raw-unarmed raws (step_raw raw sm) more (step_option-unarmed (event_of raw) sm inner h)

All-snoc : (xs : List ℕ) (x : ℕ) → All Inner xs → Inner x → All Inner (xs ++ (x ∷ []))
All-snoc [] x h hx = (hx, tt)
All-snoc (y ∷ xs) x (hy, h) hx = (hy, All-snoc xs x h hx)

All-drop : (n : ℕ) (xs : List ℕ) → All Inner xs → All Inner (drop n xs)
All-drop zero xs h = h
All-drop (suc n) [] h = tt
All-drop (suc n) (x ∷ xs) (hx, h) = All-drop n xs h

module _ {f : Float} {ls ps : AudioSource f} {out : AudioSink f} where
  -- The queue is the same, and the machine stays as it should.
  record Steps (r r' : Router ls ps out) : Type 0 where
    events : r'.events ≡ r.events
    machine : is_unarmed r.sm ≡ true → is_unarmed r'.sm ≡ true

  same : (r : Router ls ps out) → Steps r r
  same r = record { events = refl; machine = λ h. h }

  both : (r r' r'' : Router ls ps out) → Steps r r' → Steps r' r'' → Steps r r''
  both r r' r'' a b = record {
    events = b.events ∙ a.events;
    machine = λ h. b.machine (a.machine h);
  }

  either :
      (r : Router ls ps out) (b : Bool) {x y : Router ls ps out}
      → Steps r x
      → Steps r y
      → Steps r (if b then x else y)
  either r true a b = a
  either r false a b = b

  -- An event that changes no mode, applied to a router with the same queue and machine.
  apply_event-Steps :
      (e : Event) (r q : Router ls ps out)
      → is_mode_event e ≡ false
      → q.events ≡ r.events
      → q.sm ≡ r.sm
      → Steps r (apply_event ls ps out e q)
  apply_event-Steps e r q inner events machine = record {
    events = apply_event-events e q ∙ events;
    machine = λ h.
        ap is_unarmed (apply_event-sm e q) ∙ apply-unarmed q.sm e inner (ap is_unarmed machine ∙ h);
  }

  check_heartbeat-Steps : (r : Router ls ps out) → Steps r (check_heartbeat ls ps out r)
  unfolding check_heartbeat
  check_heartbeat-Steps r =
      either r _
        (apply_event-Steps phone_lost r
          (record r { phone_lost_events = add64 r.phone_lost_events 1 }) refl refl refl)
        (same r)

  update_timers-Steps : (r : Router ls ps out) → Steps r (update_timers ls ps out r)
  unfolding update_timers
  update_timers-Steps r = either r _ (apply_event-Steps recovered r r refl refl refl) (
      either r _
        (apply_event-Steps arm_timeout r (record r { arm_timeouts = add64 r.arm_timeouts 1 }) refl
          refl refl)
        (either r _ (check_heartbeat-Steps r) (same r)))

  read_local-Steps :
      (o : Option ls.State) (r : Router ls ps out) → Steps r (read_local ls ps out o r)
  unfolding read_local
  read_local-Steps none r = record { events = refl; machine = λ h. h }
  read_local-Steps (some s) r =
      let (status, frame, s') = ls.read s frame_samples in
      let broken : Router ls ps out = record r {
        local = some s';
        local_buf = silence ls ps out;
        source_failures = add64 r.source_failures 1;
      } in
      let taken : Router ls ps out = record r { local = some s'; local_buf = frame } in
      let kept : Steps r taken = record { events = refl; machine = λ h. h } in
      either r (is_failed status) {x = apply_event ls ps out source_failure broken} {y = taken}
        (apply_event-Steps source_failure r broken refl refl refl) kept

  fill_local-Steps : (b : Bool) (r : Router ls ps out) → Steps r (fill_local ls ps out b r)
  unfolding fill_local
  fill_local-Steps false r = record { events = refl; machine = λ h. h }
  fill_local-Steps true r = read_local-Steps r.local r

  read_phone-Steps :
      (o : Option ps.State) (r : Router ls ps out) → Steps r (read_phone ls ps out o r)
  unfolding read_phone
  read_phone-Steps none r = record { events = refl; machine = λ h. h }
  read_phone-Steps (some s) r =
      let (status, frame, s') = ps.read s frame_samples in
      let broken : Router ls ps out = record r {
        phone = some s';
        phone_buf = silence ls ps out;
        source_failures = add64 r.source_failures 1;
      } in
      let taken : Router ls ps out = record r { phone = some s'; phone_buf = frame } in
      let kept : Steps r taken = record { events = refl; machine = λ h. h } in
      either r (is_failed status) {x = apply_event ls ps out source_failure broken} {y = taken}
        (apply_event-Steps source_failure r broken refl refl refl) kept

  fill_phone-Steps : (b : Bool) (r : Router ls ps out) → Steps r (fill_phone ls ps out b r)
  unfolding fill_phone
  fill_phone-Steps false r = record { events = refl; machine = λ h. h }
  fill_phone-Steps true r = read_phone-Steps r.phone r

  read_sources-Steps : (r : Router ls ps out) → Steps r (read_sources ls ps out r)
  unfolding read_sources
  read_sources-Steps r =
      let hold = active f r.gate in
      let q = fill_local ls ps out (wants_local r.sm.state || hold) r in
      both r q (fill_phone ls ps out (wants_phone q.sm.state || hold) q)
        (fill_local-Steps (wants_local r.sm.state || hold) r)
        (fill_phone-Steps (wants_phone q.sm.state || hold) q)

  mix_and_write-Steps :
      (r : Router ls ps out) → Steps r (count_frame ls ps out (mix_and_write ls ps out r))
  unfolding mix_and_write count_frame
  mix_and_write-Steps r = record { events = refl; machine = λ h. h }

  write_to-Steps :
      (o : Option out.State) (r : Router ls ps out) → Steps r (write_to ls ps out o r).1
  unfolding write_to
  write_to-Steps none r = same r
  write_to-Steps (some s) r = record { events = refl; machine = λ h. h }

  finish_fade-Steps : (r : Router ls ps out) → Steps r (finish_fade ls ps out r)
  unfolding finish_fade
  finish_fade-Steps r = either r _ (apply_event-Steps fade_complete r r refl refl refl) (same r)

  tick-Steps : (r : Router ls ps out) → Steps (drained ls ps out r) (tick ls ps out r).1
  unfolding tick render write_sink
  tick-Steps r =
      let d = drained ls ps out r in
      let u = update_timers ls ps out d in
      let s = read_sources ls ps out u in
      let q = render ls ps out r in
      let w = (write_sink ls ps out q).1 in
      both d w (finish_fade ls ps out w)
        (both d u w (update_timers-Steps d) (
          both u s w (read_sources-Steps u)
            (both s q w (mix_and_write-Steps s) (write_to-Steps q.sink q))))
        (finish_fade-Steps w)

  -- A router in the phone-only mode that does not wait for the phone, with a well-formed queue of
  -- events that change no mode.
  pub record Confined (r : Router ls ps out) : Type 0 where
    pub unarmed : is_unarmed r.sm ≡ true
    pub queue : IsValid 8 r.events
    pub inner : All Inner (contents r.events)

  pub post-Confined :
      (e : Event) (r : Router ls ps out)
      → is_mode_event e ≡ false
      → Confined r
      → Confined (post ls ps out e r)
  unfolding post
  post-Confined e r inner c =
      let written = write_refines 8 r.events (code e ∷ []) c.queue (omega arith) in
      let known : Inner (code e) = ap is_inner (event_of-code e) ∙ ap not inner in
      record {
        unarmed = c.unarmed;
        queue = written.0;
        inner =
            subst (All Inner) (sym written.2)
              (All-drop _ _ (All-snoc (contents r.events) (code e) c.inner known));
      }

  pub tick-Confined : (r : Router ls ps out) → Confined r → Confined (tick ls ps out r).1
  tick-Confined r c =
      let d = drained ls ps out r in
      let done : Drained (run_raw (contents r.events) r.sm) d =
        unfold drained in
        drain_events-Drained (suc r.events.capacity) r c.queue
          (omega (arith, length-contents r.events, c.queue.held)) in
      let rest = tick-Steps r in
      let unarmed : is_unarmed d.sm ≡ true =
        ap is_unarmed done.machine ∙ run_raw-unarmed (contents r.events) r.sm c.inner c.unarmed in
      let emptied : contents (tick ls ps out r).1.events ≡ [] =
        ap (λ q. contents q) rest.events ∙ done.emptied in
      record {
        unarmed = rest.machine unarmed;
        queue = subst (IsValid 8) (sym rest.events) done.queue;
        inner = subst (All Inner) (sym emptied) tt;
      }
