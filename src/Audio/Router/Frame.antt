-- ===== src/Audio/Router/Frame.antt =====
-- router.cpp: what each part of `tick` leaves alone, and that every tick writes exactly one frame.
use smartmic_windows.Prelude.{
  ℕ, zero, suc, ◌≡◌, refl, sym, ap, ◌∙◌, Bool, true, false, ◌||◌, List, [], ◌∷◌, Option, none, some,
  arith, length, add64,
}
use mathlib.Core.Path.{ap₂}
use smartmic_windows.Audio.Float.{Float}
use smartmic_windows.Audio.Io.{AudioSource, AudioSink}
use smartmic_windows.Audio.Crossfade.{Fade, active, frame_samples}
use smartmic_windows.Audio.RingBuffer
use smartmic_windows.Audio.StateMachine.{
  Event, wants_local, wants_phone, apply, source_failure, fade_complete, recovered, arm_timeout,
  phone_lost,
}
use smartmic_windows.Audio.Router.{
  Router, RouterConfig, apply_event, apply_raw, event_of, drain_events, drained, update_timers,
  read_sources, mix_loop, mix_and_write, count_frame, write_sink, write_to, finish_fade, render,
  tick, on_item, read_local, read_phone, fill_local, fill_phone, silence,
}

-- What a sink does with a frame: it takes it or not, and moves on; no sink takes everything.
abbrev pub offered :
    {f : Float} (out : AudioSink f) → Option out.State → List f.F → Bool × Option out.State
offered out none frame = (true, none)
offered out (some s) frame = let (taken, s') = out.write s frame in (taken, some s')

module _ {f : Float} {ls ps : AudioSource f} {out : AudioSink f} where
  -- The clock, the configuration, the heartbeat, the queue and the sink are as before.
  pub record Keeps (r r' : Router ls ps out) : Type 0 where
    pub config : r'.config ≡ r.config
    pub frame_index : r'.frame_index ≡ r.frame_index
    pub heartbeat : r'.last_heartbeat_frame ≡ r.last_heartbeat_frame
    pub produced : r'.frames_produced ≡ r.frames_produced
    pub sink : r'.sink ≡ r.sink

  pub Keeps-refl : (r : Router ls ps out) → Keeps r r
  Keeps-refl r = record {
    config = refl;
    frame_index = refl;
    heartbeat = refl;
    produced = refl;
    sink = refl;
  }

  pub Keeps-trans : (r r' r'' : Router ls ps out) → Keeps r r' → Keeps r' r'' → Keeps r r''
  Keeps-trans r r' r'' a b = record {
    config = b.config ∙ a.config;
    frame_index = b.frame_index ∙ a.frame_index;
    heartbeat = b.heartbeat ∙ a.heartbeat;
    produced = b.produced ∙ a.produced;
    sink = b.sink ∙ a.sink;
  }

  -- The machine moves exactly as the state machine says.
  pub apply_event-sm :
      (e : Event) (r : Router ls ps out) → (apply_event ls ps out e r).sm ≡ (apply r.sm e).1
  unfolding apply_event
  apply_event-sm e r = ground arith

  pub apply_event-events :
      (e : Event) (r : Router ls ps out) → (apply_event ls ps out e r).events ≡ r.events
  unfolding apply_event
  apply_event-events e r = ground arith

  pub apply_event-Keeps : (e : Event) (r : Router ls ps out) → Keeps r (apply_event ls ps out e r)
  unfolding apply_event
  apply_event-Keeps e r = ground arith

  pub apply_raw-Keeps : (raw : ℕ) (r : Router ls ps out) → Keeps r (apply_raw ls ps out raw r)
  unfolding apply_raw
  apply_raw-Keeps raw r = go (event_of raw) refl
    where
      go : (o : Option Event) → event_of raw ≡ o → Keeps r (apply_raw ls ps out raw r)
      go none e = rw (e, apply_raw) (Keeps-refl r)
      go (some ev) e = rw (e, apply_raw) (apply_event-Keeps ev r)

  on_item-Keeps :
      (next : Router ls ps out → Router ls ps out) (items : List ℕ) (r : Router ls ps out)
      → ((q : Router ls ps out) → Keeps q (next q))
      → Keeps r (on_item ls ps out next items r)
  unfolding on_item
  on_item-Keeps next [] r h = Keeps-refl r
  on_item-Keeps next (raw ∷ _) r h =
      let q = apply_raw ls ps out raw r in Keeps-trans r q (next q) (apply_raw-Keeps raw r) (h q)

  pub drain_events-Keeps :
      (fuel : ℕ) (r : Router ls ps out) → Keeps r (drain_events ls ps out fuel r)
  unfolding drain_events
  drain_events-Keeps zero r = Keeps-refl r
  drain_events-Keeps (suc fuel) r =
      let q : Router ls ps out = record r { events = (RingBuffer.read r.events 1).1 } in
      Keeps-trans r q
        (on_item ls ps out (drain_events ls ps out fuel) (RingBuffer.read r.events 1).0 q)
        (record {
          config = refl;
          frame_index = refl;
          heartbeat = refl;
          produced = refl;
          sink = refl;
        })
        (on_item-Keeps (drain_events ls ps out fuel) (RingBuffer.read r.events 1).0 q
          (drain_events-Keeps fuel))

  pub update_timers-Keeps : (r : Router ls ps out) → Keeps r (update_timers ls ps out r)
  unfolding update_timers
  update_timers-Keeps r = ground (
    arith,
    apply_event-Keeps recovered r,
    apply_event-Keeps arm_timeout (record r { arm_timeouts = add64 r.arm_timeouts 1 }),
    apply_event-Keeps phone_lost (record r { phone_lost_events = add64 r.phone_lost_events 1 }),
  )

  read_local-Keeps :
      (o : Option ls.State) (r : Router ls ps out) → Keeps r (read_local ls ps out o r)
  unfolding read_local
  read_local-Keeps none r = ground arith
  read_local-Keeps (some s) r =
      let (status, frame, s') = ls.read s frame_samples in
      ground (
        arith,
        apply_event-Keeps source_failure (record r {
          local = some s';
          local_buf = silence ls ps out;
          source_failures = add64 r.source_failures 1;
        }),
      )

  fill_local-Keeps : (b : Bool) (r : Router ls ps out) → Keeps r (fill_local ls ps out b r)
  unfolding fill_local
  fill_local-Keeps false r = ground arith
  fill_local-Keeps true r = read_local-Keeps r.local r

  read_phone-Keeps :
      (o : Option ps.State) (r : Router ls ps out) → Keeps r (read_phone ls ps out o r)
  unfolding read_phone
  read_phone-Keeps none r = ground arith
  read_phone-Keeps (some s) r =
      let (status, frame, s') = ps.read s frame_samples in
      ground (
        arith,
        apply_event-Keeps source_failure (record r {
          phone = some s';
          phone_buf = silence ls ps out;
          source_failures = add64 r.source_failures 1;
        }),
      )

  fill_phone-Keeps : (b : Bool) (r : Router ls ps out) → Keeps r (fill_phone ls ps out b r)
  unfolding fill_phone
  fill_phone-Keeps false r = ground arith
  fill_phone-Keeps true r = read_phone-Keeps r.phone r

  read_sources-Keeps : (r : Router ls ps out) → Keeps r (read_sources ls ps out r)
  unfolding read_sources
  read_sources-Keeps r =
      let hold = active f r.gate in
      let q = fill_local ls ps out (wants_local r.sm.state || hold) r in
      Keeps-trans r q (fill_phone ls ps out (wants_phone q.sm.state || hold) q)
        (fill_local-Keeps (wants_local r.sm.state || hold) r)
        (fill_phone-Keeps (wants_phone q.sm.state || hold) q)

  pub mix_and_write-Keeps : (r : Router ls ps out) → Keeps r (mix_and_write ls ps out r)
  unfolding mix_and_write
  mix_and_write-Keeps r = ground arith

  mix_loop-length :
      (cfg : RouterConfig ls ps out) (n : ℕ) (xs ys : List f.F) (fade gate : Fade f)
      → length (mix_loop ls ps out cfg n xs ys fade gate).out ≡ n
  unfolding mix_loop
  mix_loop-length cfg zero xs ys fade gate = refl
  mix_loop-length cfg (suc n) xs ys fade gate = ap suc (mix_loop-length cfg n _ _ _ _)

  -- Everything of `render` before the frame is counted.
  played : Router ls ps out → Router ls ps out
  played r =
      mix_and_write ls ps out
        (read_sources ls ps out (update_timers ls ps out (drained ls ps out r)))

  played-Keeps : (r : Router ls ps out) → Keeps r (played r)
  unfolding played drained
  played-Keeps r =
      let d = drained ls ps out r in
      let u = update_timers ls ps out d in
      let s = read_sources ls ps out u in
      Keeps-trans r s (mix_and_write ls ps out s)
        (Keeps-trans r u s
          (Keeps-trans r d u (drain_events-Keeps (suc r.events.capacity) r) (update_timers-Keeps d))
          (read_sources-Keeps u))
        (mix_and_write-Keeps s)

  played-length : (r : Router ls ps out) → length (played r).out_buf ≡ frame_samples
  unfolding played mix_and_write
  played-length r = mix_loop-length _ 960 _ _ _ _

  apply_event-out_buf :
      (e : Event) (r : Router ls ps out) → (apply_event ls ps out e r).out_buf ≡ r.out_buf
  unfolding apply_event
  apply_event-out_buf e r = ground arith

  finish_fade-Keeps : (r : Router ls ps out) → Keeps r (finish_fade ls ps out r)
  unfolding finish_fade
  finish_fade-Keeps r = ground (arith, apply_event-Keeps fade_complete r)

  finish_fade-out_buf : (r : Router ls ps out) → (finish_fade ls ps out r).out_buf ≡ r.out_buf
  unfolding finish_fade
  finish_fade-out_buf r = ground (arith, apply_event-out_buf fade_complete r)

  record Wrote (r : Router ls ps out) (o : Option out.State) (w : Bool × Router ls ps out)
      : Type 0 where
    same_buf : w.1.out_buf ≡ r.out_buf
    same_index : w.1.frame_index ≡ r.frame_index
    same_produced : w.1.frames_produced ≡ r.frames_produced
    given : (w.0, w.1.sink) ≡ offered out o r.out_buf

  write_to-Wrote :
      (o : Option out.State) (r : Router ls ps out)
      → r.sink ≡ o
      → Wrote r o (write_to ls ps out o r)
  unfolding write_to
  write_to-Wrote none r e = ground arith
  write_to-Wrote (some s) r e = ground arith

  -- Every tick, in every state, renders exactly 960 samples and offers exactly that frame to the
  -- sink, once; it returns whether the sink took it (true without a sink), and counts the frame
  -- whether or not it was taken.
  pub tick_writes_frame :
      (r : Router ls ps out)
      → let (ok, r') = tick ls ps out r in
        (length r'.out_buf ≡ frame_samples)
        × ((ok, r'.sink) ≡ offered out r.sink r'.out_buf)
        × (r'.frame_index ≡ add64 r.frame_index 1)
        × (r'.frames_produced ≡ add64 r.frame_index 1)
  unfolding tick render played count_frame
  tick_writes_frame r = (
    ap length bufs ∙ played-length r,
    pairs,
    done.frame_index ∙ w.same_index ∙ ap (λ n. add64 n 1) keeps.frame_index,
    done.produced ∙ w.same_produced ∙ ap (λ n. add64 n 1) keeps.frame_index,
  )
    where
      keeps : Keeps r (played r)
      keeps = played-Keeps r

      q : Router ls ps out
      q = render ls ps out r

      w : Wrote q q.sink (write_sink ls ps out q)
      w = write_to-Wrote q.sink q refl

      q' : Router ls ps out
      q' = (write_sink ls ps out q).1

      done : Keeps q' (finish_fade ls ps out q')
      done = finish_fade-Keeps q'

      bufs : (finish_fade ls ps out q').out_buf ≡ q.out_buf
      bufs = finish_fade-out_buf q' ∙ w.same_buf

      pairs :
          ((write_sink ls ps out q).0, (finish_fade ls ps out q').sink)
          ≡ offered out r.sink (finish_fade ls ps out q').out_buf
      pairs =
          ap (λ s. ((write_sink ls ps out q).0, s)) done.sink
          ∙ w.given
          ∙ ap₂ (offered out) keeps.sink (sym bufs)
