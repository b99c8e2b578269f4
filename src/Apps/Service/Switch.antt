-- ===== src/Apps/Service/Switch.antt =====
-- main.cpp over router.cpp: what the service's calls do to the router's state machine.
use smartmic_windows.Prelude.{
  ◌≡◌, refl, sym, ap, ◌∙◌, subst, Bool, true, false, List, [], ◌∷◌, All, arith, if◌then◌else◌,
}
use smartmic_windows.Audio.Float.{Float}
use smartmic_windows.Audio.Io.{AudioSource, AudioSink}
use smartmic_windows.Audio.RingBuffer.Refine.{IsValid, contents}
use smartmic_windows.Audio.StateMachine.{
  Event, apply, run, phone_arming, phone_active, phone_ready, auto,
}
use smartmic_windows.Audio.Router.{
  Router, drained, notify_phone_ready, notify_phone_heartbeat, start_ptt_call, stop_ptt_call, post,
  tick,
}
use smartmic_windows.Audio.Router.Drain.{control_in_order}
use smartmic_windows.Audio.Router.Steady.{IsSteady, on_phone, tick-on}
use smartmic_windows.Audio.Router.Unarmed.{Confined, is_unarmed, post-Confined, tick-Confined}
use smartmic_windows.Media.JitterBuffer.{Estimator, Decoder}
use smartmic_windows.Media.PhoneSource.{PhoneMediaSource}
use smartmic_windows.Apps.Service.{
  Service, Request, ptt_ready, announces, announce, on_control, on_media, loop_round,
}
use smartmic_windows.Apps.Service.Announce.{
  Act, act, acts, hears, controls, rounds, ready_count, announces-armed,
}
use smartmic_windows.Apps.Service.Parts.{router_control, source_control}

module _ {f : Float} (ls ps : AudioSource f) (out : AudioSink f) (est : Estimator)
    (dec : Decoder) where
  -- One call that posts an event: the drain of the next tick applies it.
  posted :
      (e : Event) (r : Router ls ps out)
      → IsValid 8 r.events
      → contents r.events ≡ []
      → (drained ls ps out (post ls ps out e (notify_phone_heartbeat ls ps out r))).sm
        ≡ (apply r.sm e).1
  unfolding run notify_phone_heartbeat
  posted e r v empty =
      (control_in_order (e ∷ []) (notify_phone_heartbeat ls ps out r) v empty (omega arith)).machine

  -- A round of the loop that announces, over a router in the automatic mode with an empty queue, whose two
  -- frame counters agree, as they do after every tick, and whose sources do not fail: the phone is told
  -- once that the service is ready, and when the round is over the phone is the active source.
  pub announcement_switches :
      (drain : PhoneMediaSource est dec → PhoneMediaSource est dec)
      (s : Service (router_control ls ps out) (source_control est dec))
      → IsSteady ls
      → IsSteady ps
      → IsValid 8 s.router.events
      → contents s.router.events ≡ []
      → s.router.frames_produced ≡ s.router.frame_index
      → s.router.sm.mode ≡ auto
      → announces (router_control ls ps out) (source_control est dec) s ≡ true
      → let s' = loop_round (router_control ls ps out) (source_control est dec) drain s in
        (s'.router.sm ≡ record { state = phone_active; mode = auto })
        × (s'.outbox ≡ ptt_ready ∷ s.outbox)
  unfolding loop_round announce notify_phone_ready notify_phone_heartbeat apply
  announcement_switches drain s ls_steady ps_steady v empty counters mode announced =
      let armed = announces-armed (router_control ls ps out) (source_control est dec) s announced in
      let state : s.router.sm ≡ record { state = phone_arming; mode = auto } =
        ground (arith, armed.2, mode) in
      let r = notify_phone_ready ls ps out s.router in
      let on : (drained ls ps out r).sm ≡ on_phone =
        posted phone_ready s.router v empty ∙ ap (λ sm. (apply sm phone_ready).1) state in
      let ticked : (tick ls ps out r).1.sm ≡ on_phone =
        tick-on ls_steady ps_steady r (ground (arith, counters)) on in
      let told = announce (router_control ls ps out) (source_control est dec) s in
      let round : (if announces (router_control ls ps out) (source_control est dec) s
            then told
            else s)
          ≡ told =
        rw announced refl in
      (ap (λ t. (tick ls ps out t.router).1.sm) round ∙ ticked, ap (λ t. t.outbox) round)

  -- An act that chooses no mode.
  abbrev pub keeps_mode : Act (router_control ls ps out) (source_control est dec) → Bool
  keeps_mode (controls (Request.set_mode m)) = false
  keeps_mode (controls Request.start_ptt) = true
  keeps_mode (controls Request.stop_ptt) = true
  keeps_mode (controls Request.get_status) = true
  keeps_mode (controls Request.ping) = true
  keeps_mode (controls Request.other_request) = true
  keeps_mode (hears now bytes) = true
  keeps_mode (rounds drain) = true

  -- An act on a service whose router is confined leaves it so, and announces nothing.
  Silent : (s s' : Service (router_control ls ps out) (source_control est dec)) → Type 0
  Silent s s' = Confined s'.router × (ready_count s'.outbox ≡ ready_count s.outbox)

  unarmed-silent :
      (s : Service (router_control ls ps out) (source_control est dec))
      → is_unarmed s.router.sm ≡ true
      → announces (router_control ls ps out) (source_control est dec) s ≡ false
  unfolding announces
  unarmed-silent s h = ground (arith, h)

  heartbeat-Confined :
      (r : Router ls ps out) → Confined r → Confined (notify_phone_heartbeat ls ps out r)
  unfolding notify_phone_heartbeat
  heartbeat-Confined r c = record { unarmed = c.unarmed; queue = c.queue; inner = c.inner }

  act-Silent :
      (a : Act (router_control ls ps out) (source_control est dec))
      (s : Service (router_control ls ps out) (source_control est dec))
      → keeps_mode a ≡ true
      → Confined s.router
      → Silent s (act (router_control ls ps out) (source_control est dec) a s)
  unfolding Silent act on_media on_control loop_round start_ptt_call stop_ptt_call
  act-Silent (hears now bytes) s kept c = (heartbeat-Confined s.router c, refl)
  act-Silent (controls Request.start_ptt) s kept c =
      (post-Confined Event.start_ptt _ refl (heartbeat-Confined s.router c), refl)
  act-Silent (controls Request.stop_ptt) s kept c =
      (post-Confined Event.stop_ptt s.router refl c, refl)
  act-Silent (controls Request.get_status) s kept c = (c, refl)
  act-Silent (controls Request.ping) s kept c = (c, refl)
  act-Silent (controls Request.other_request) s kept c = (c, refl)
  act-Silent (controls (Request.set_mode m)) s kept c = ground (arith, kept)
  act-Silent (rounds drain) s kept c =
      let quiet = unarmed-silent s c.unarmed in
      let told = announce (router_control ls ps out) (source_control est dec) s in
      let round : (if announces (router_control ls ps out) (source_control est dec) s
            then told
            else s)
          ≡ s =
        rw quiet refl in
      (
        subst (λ t. Confined (tick ls ps out t.router).1) (sym round) (tick-Confined s.router c),
        ap (λ t. ready_count t.outbox) round,
      )

  -- From a router in the phone-only mode that does not wait for the phone, with a well-formed queue of
  -- events that change no mode: however many starts and stops of push-to-talk, other requests, media
  -- and rounds of the loop follow, in whatever order, as long as no mode is chosen the service makes
  -- no announcement that the phone is ready, whatever the phone has sent.
  pub phone_only_unannounced :
      (as' : List (Act (router_control ls ps out) (source_control est dec)))
      (s : Service (router_control ls ps out) (source_control est dec))
      → All (λ a. keeps_mode a ≡ true) as'
      → Confined s.router
      → ready_count (acts (router_control ls ps out) (source_control est dec) as' s).outbox
        ≡ ready_count s.outbox
  unfolding Silent
  phone_only_unannounced [] s kept c = refl
  phone_only_unannounced (a ∷ as') s (one, more) c =
      let (c', same) = act-Silent a s one c in
      phone_only_unannounced as' (act (router_control ls ps out) (source_control est dec) a s) more
        c'
      ∙ same
