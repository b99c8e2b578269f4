-- ===== src/Audio/Router/Steady.antt =====
-- router.cpp: a tick of an active phone that was heard of just now, over sources that do not fail.
use smartmic_windows.Prelude.{
  suc, ◌≡◌, refl, sym, ap, ◌∙◌, Bool, true, false, ◌||◌, Option, none, some, arith,
}
use smartmic_windows.Audio.Float.{Float}
use smartmic_windows.Audio.Io.{AudioSource, AudioSink}
use smartmic_windows.Audio.Crossfade.{active, frame_samples}
use smartmic_windows.Audio.StateMachine.{
  SourceStateMachine, auto, phone_active, wants_local, wants_phone,
}
use smartmic_windows.Audio.Router.{
  Router, is_failed, drained, update_timers, read_sources, fill_local, fill_phone, read_local,
  read_phone, mix_and_write, write_sink, write_to, finish_fade, count_frame, render, tick,
}
use smartmic_windows.Audio.Router.Frame.{Keeps, drain_events-Keeps}
use smartmic_windows.Audio.Router.Watchdog.{is_stale, update_timers_lem}

-- A source whose reads do not fail.
abbrev pub IsSteady : {f : Float} → AudioSource f → Type 0
IsSteady src = (s : src.State) → is_failed (src.read s frame_samples).0 ≡ false

abbrev pub on_phone : SourceStateMachine
on_phone = record { state = phone_active; mode = auto }

module _ {f : Float} {ls ps : AudioSource f} {out : AudioSink f} where
  module _ (ls_steady : IsSteady ls) (ps_steady : IsSteady ps) where
    read_local-sm :
        (o : Option ls.State) (r : Router ls ps out) → (read_local ls ps out o r).sm ≡ r.sm
    unfolding read_local
    read_local-sm none r = refl
    read_local-sm (some s) r = ground (arith, ls_steady s)

    fill_local-sm : (b : Bool) (r : Router ls ps out) → (fill_local ls ps out b r).sm ≡ r.sm
    unfolding fill_local
    fill_local-sm false r = refl
    fill_local-sm true r = read_local-sm r.local r

    read_phone-sm :
        (o : Option ps.State) (r : Router ls ps out) → (read_phone ls ps out o r).sm ≡ r.sm
    unfolding read_phone
    read_phone-sm none r = refl
    read_phone-sm (some s) r = ground (arith, ps_steady s)

    fill_phone-sm : (b : Bool) (r : Router ls ps out) → (fill_phone ls ps out b r).sm ≡ r.sm
    unfolding fill_phone
    fill_phone-sm false r = refl
    fill_phone-sm true r = read_phone-sm r.phone r

    read_sources-sm : (r : Router ls ps out) → (read_sources ls ps out r).sm ≡ r.sm
    unfolding read_sources
    read_sources-sm r =
        let hold = active f r.gate in
        let q = fill_local ls ps out (wants_local r.sm.state || hold) r in
        fill_phone-sm (wants_phone q.sm.state || hold) q
        ∙ fill_local-sm (wants_local r.sm.state || hold) r

    not_stale :
        (r : Router ls ps out)
        → r.last_heartbeat_frame ≡ r.frame_index
        → is_stale (drained ls ps out r) ≡ false
    unfolding drained
    not_stale r fresh =
        let kept : Keeps r (drained ls ps out r) = drain_events-Keeps (suc r.events.capacity) r in
        let now : (drained ls ps out r).last_heartbeat_frame ≡ (drained ls ps out r).frame_index =
          kept.heartbeat ∙ fresh ∙ sym kept.frame_index in
        ground (arith, now)

    timers-on :
        (r : Router ls ps out)
        → is_stale r ≡ false
        → r.sm ≡ on_phone
        → (update_timers ls ps out r).sm ≡ on_phone
    timers-on r fresh on =
        let (state, mode) = update_timers_lem r in
        let there : r.sm.state ≡ phone_active = ap (λ m. m.state) on in
        let stays : (update_timers ls ps out r).sm.state ≡ phone_active =
          state ∙ ground (arith, there, fresh) in
        λ i. record { state = stays i; mode = (mode ∙ ap (λ m. m.mode) on) i }

    write_to-sm :
        (o : Option out.State) (r : Router ls ps out) → (write_to ls ps out o r).1.sm ≡ r.sm
    unfolding write_to
    write_to-sm none r = refl
    write_to-sm (some s) r = refl

    mix_and_write-sm :
        (r : Router ls ps out) → (count_frame ls ps out (mix_and_write ls ps out r)).sm ≡ r.sm
    unfolding mix_and_write count_frame
    mix_and_write-sm r = refl

    finish_fade-on :
        (r : Router ls ps out) → r.sm ≡ on_phone → (finish_fade ls ps out r).sm ≡ on_phone
    unfolding finish_fade
    finish_fade-on r on =
        let there : r.sm.state ≡ phone_active = ap (λ m. m.state) on in
        let stays : (finish_fade ls ps out r).sm ≡ r.sm = ground (arith, there) in stays ∙ on

    -- The phone stays the active source through the tick whose drain makes it that.
    pub tick-on :
        (r : Router ls ps out)
        → r.last_heartbeat_frame ≡ r.frame_index
        → (drained ls ps out r).sm ≡ on_phone
        → (tick ls ps out r).1.sm ≡ on_phone
    unfolding tick render write_sink
    tick-on r fresh on =
        let u = update_timers ls ps out (drained ls ps out r) in
        let s = read_sources ls ps out u in
        let q = render ls ps out r in
        let timed = timers-on (drained ls ps out r) (not_stale r fresh) on in
        finish_fade-on (write_sink ls ps out q).1
          (write_to-sm q.sink q ∙ mix_and_write-sm s ∙ read_sources-sm u ∙ timed)
