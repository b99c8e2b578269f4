-- ===== src/Audio/Router/Drain.antt =====
-- router.cpp: the control surface and `drainEvents`. Calls made from outside reach the state
-- machine at the next tick, each once and in order.
use smartmic_windows.Prelude.{
  ℕ, zero, suc, ◌+◌, ◌≤◌, ◌<◌, ◌≡◌, refl, sym, ap, ◌∙◌, List, [], ◌∷◌, ◌++◌, Option, none, some,
  arith, subst, length, take, drop, map, length-append, append-nil, append_assoc,
}
use mathlib.Core.Path.{ap₂}
use smartmic_windows.Audio.Float.{Float}
use smartmic_windows.Audio.Io.{AudioSource, AudioSink}
use smartmic_windows.Audio.RingBuffer.{RingBuffer, available}
use smartmic_windows.Audio.RingBuffer
use smartmic_windows.Audio.RingBuffer.Refine.{
  IsValid, contents, read_refines, write_refines, length-contents, excess,
}
use smartmic_windows.Audio.StateMachine.{Event, SourceStateMachine, apply, run}
use smartmic_windows.Audio.Router.{Router, code, event_of, apply_raw, drain_events, drained, post}
use smartmic_windows.Audio.Router.Frame.{apply_event-sm, apply_event-events}

-- `event_of` undoes `code`.
pub event_of-code : (e : Event) → event_of (code e) ≡ some e
event_of-code e = ground arith

abbrev pub step_option : Option Event → SourceStateMachine → SourceStateMachine
step_option none sm = sm
step_option (some e) sm = (apply sm e).1

abbrev pub step_raw : ℕ → SourceStateMachine → SourceStateMachine
step_raw raw sm = step_option (event_of raw) sm

abbrev pub run_raw : List ℕ → SourceStateMachine → SourceStateMachine
run_raw [] sm = sm
run_raw (raw ∷ raws) sm = run_raw raws (step_raw raw sm)

run_raw-code : (es : List Event) (sm : SourceStateMachine) → run_raw (map code es) sm ≡ run sm es
unfolding run
run_raw-code [] sm = refl
run_raw-code (e ∷ es) sm =
    ap (λ o. run_raw (map code es) (step_option o sm)) (event_of-code e)
    ∙ run_raw-code es (apply sm e).1

module _ {f : Float} {ls ps : AudioSource f} {out : AudioSink f} where
  apply_raw_lem :
      (raw : ℕ) (r : Router ls ps out)
      → ((apply_raw ls ps out raw r).sm ≡ step_raw raw r.sm)
        × ((apply_raw ls ps out raw r).events ≡ r.events)
  unfolding apply_raw
  apply_raw_lem raw r = go (event_of raw) refl
    where
      go :
          (o : Option Event)
          → event_of raw ≡ o
          → ((apply_raw ls ps out raw r).sm ≡ step_raw raw r.sm)
            × ((apply_raw ls ps out raw r).events ≡ r.events)
      go none e = rw (e, apply_raw, step_raw) (refl, refl)
      go (some ev) e = rw (e, apply_raw, step_raw) (apply_event-sm ev r, apply_event-events ev r)

  -- The queue is empty and well formed, and the machine has taken the steps.
  pub record Drained (sm : SourceStateMachine) (r : Router ls ps out) : Type 0 where
    pub machine : r.sm ≡ sm
    pub emptied : contents r.events ≡ []
    pub queue : IsValid 8 r.events

  pub drain_events-Drained :
      (fuel : ℕ) (r : Router ls ps out)
      → IsValid 8 r.events
      → length (contents r.events) < fuel
      → Drained (run_raw (contents r.events) r.sm) (drain_events ls ps out fuel r)
  unfolding drain_events
  drain_events-Drained zero r v h = absurd (omega arith)
  drain_events-Drained (suc fuel) r v h = go (contents r.events) refl (drain_events-Drained fuel)
    where
      popped : RingBuffer ℕ
      popped = (RingBuffer.read r.events 1).1

      after :
          IsValid 8 popped
          × ((RingBuffer.read r.events 1).0 ≡ take 1 (contents r.events))
          × (contents popped ≡ drop 1 (contents r.events))
      after = read_refines 8 r.events 1 v

      go :
          (raws : List ℕ)
          → contents r.events ≡ raws
          → ((q : Router ls ps out)
              → IsValid 8 q.events
              → length (contents q.events) < fuel
              → Drained (run_raw (contents q.events) q.sm) (drain_events ls ps out fuel q))
          → Drained (run_raw (contents r.events) r.sm) (drain_events ls ps out (suc fuel) r)
      go [] e ih =
          let none_read : (RingBuffer.read r.events 1).0 ≡ [] = after.1 ∙ ap (take 1) e in
          let left : contents popped ≡ [] = after.2 ∙ ap (drop 1) e in
          rw (e, none_read) (record { machine = refl; emptied = left; queue = after.0 })
      go (raw ∷ raws) e ih =
          let one_read : (RingBuffer.read r.events 1).0 ≡ raw ∷ [] = after.1 ∙ ap (take 1) e in
          let left : contents popped ≡ raws = after.2 ∙ ap (drop 1) e in
          let q : Router ls ps out = apply_raw ls ps out raw (record r { events = popped }) in
          let done = apply_raw_lem raw (record r { events = popped }) in
          let same : contents q.events ≡ raws = ap contents done.1 ∙ left in
          let valid : IsValid 8 q.events = subst (IsValid 8) (sym done.1) after.0 in
          let room : length (contents q.events) < fuel =
            omega (arith, ap length same, ap length e) in
          let rest : Drained (run_raw (contents q.events) q.sm) (drain_events ls ps out fuel q) =
            ih q valid room in
          let machine : run_raw (contents q.events) q.sm ≡ run_raw (raw ∷ raws) r.sm =
            ap₂ run_raw same done.0 in
          rw (e, one_read) (subst (λ sm. Drained sm (drain_events ls ps out fuel q)) machine rest)

  post-events :
      (e : Event) (r : Router ls ps out)
      → IsValid 8 r.events
      → length (contents r.events) < 256
      → IsValid 8 (post ls ps out e r).events
        × (contents (post ls ps out e r).events ≡ contents r.events ++ (code e ∷ []))
  unfolding post
  post-events e r v room =
      let all = contents r.events ++ (code e ∷ []) in
      let fits : excess r.events all ≡ 0 =
        omega (arith, length-append (contents r.events) (code e ∷ []), v.power) in
      let written = write_refines 8 r.events (code e ∷ []) v (omega arith) in
      (written.0, written.2 ∙ ap (λ n. drop n all) fits)

  abbrev pub post_all : List Event → Router ls ps out → Router ls ps out
  post_all [] r = r
  post_all (e ∷ es) r = post_all es (post ls ps out e r)

  post-sm : (e : Event) (r : Router ls ps out) → (post ls ps out e r).sm ≡ r.sm
  unfolding post
  post-sm e r = refl

  post_all_lem :
      (es : List Event) (r : Router ls ps out)
      → IsValid 8 r.events
      → length (contents r.events) + length es ≤ 256
      → IsValid 8 (post_all es r).events
        × (contents (post_all es r).events ≡ contents r.events ++ map code es)
        × ((post_all es r).sm ≡ r.sm)
  post_all_lem [] r v room = (v, sym (append-nil (contents r.events)), refl)
  post_all_lem (e ∷ es) r v room =
      let one = post-events e r v (omega arith) in
      let longer : length (contents (post ls ps out e r).events) + length es ≤ 256 =
        omega (arith, ap length one.1, length-append (contents r.events) (code e ∷ []), room) in
      let rest = post_all_lem es (post ls ps out e r) one.0 longer in
      (
        rest.0,
        rest.1
            ∙ ap (λ xs. xs ++ map code es) one.1
            ∙ append_assoc (contents r.events) (code e ∷ []) (map code es),
        rest.2 ∙ post-sm e r,
      )

  -- Up to 256 control calls made between two ticks, on a well-formed queue that is empty, are all
  -- applied by the next tick's drain, each once and in the order they were posted: the state machine
  -- ends where `run` takes it, and the queue is empty and well formed again.
  pub control_in_order :
      (es : List Event) (r : Router ls ps out)
      → IsValid 8 r.events
      → contents r.events ≡ []
      → length es ≤ 256
      → Drained (run r.sm es) (drained ls ps out (post_all es r))
  unfolding drained
  control_in_order es r v none_held room =
      subst (λ sm. Drained sm (drained ls ps out p)) machine done
    where
      p : Router ls ps out
      p = post_all es r

      posted :
          IsValid 8 p.events
          × (contents p.events ≡ contents r.events ++ map code es)
          × (p.sm ≡ r.sm)
      posted = post_all_lem es r v (omega (arith, ap length none_held))

      held : contents p.events ≡ map code es
      held = posted.1 ∙ ap (λ xs. xs ++ map code es) none_held

      done : Drained (run_raw (contents p.events) p.sm) (drained ls ps out p)
      done =
          drain_events-Drained (suc p.events.capacity) p posted.0
            (omega (arith, length-contents p.events, posted.0.held))

      machine : run_raw (contents p.events) p.sm ≡ run r.sm es
      machine = ap₂ run_raw held posted.2 ∙ run_raw-code es r.sm
