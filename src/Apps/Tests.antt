-- ===== src/Apps/Tests.antt =====
-- The phone and the service on concrete data.
use smartmic_windows.Prelude.{
  ℕ, suc, All, ◌+◌, ◌≤◌, ◌≡◌, ◌≢◌, refl, true, false, List, [], ◌∷◌, subst, sym, some, arith,
  replicate,
}
use mathlib.Core.List.{Memᴰ}
use smartmic_windows.Audio.Tests.{steady, counting, defaults}
use smartmic_windows.Audio.Router.{Router, make, start_ptt_call}
use smartmic_windows.Audio.Router.Steady.{IsSteady}
use smartmic_windows.Audio.Router.Unarmed.{Confined, Inner}
use smartmic_windows.Audio.RingBuffer.{fresh}
use smartmic_windows.Audio.RingBuffer.Refine.{IsValid, contents, fresh-IsValid}
use smartmic_windows.Audio.StateMachine.{SourceState, RoutingMode}
use smartmic_windows.Media.Tests.{toy_estimator, toy_decoder, empty_buffer}
use smartmic_windows.Media.PhoneSource.{Encoder, PhoneMediaSource, is_ready}
use smartmic_windows.Media.JitterBuffer
use smartmic_windows.Apps.Phone
use smartmic_windows.Apps.Phone.{
  Phone, Received, Sent, live, connecting, authenticated, worker_round, release, press, on_control,
  arm_timeout_ms, release_timeout_ms, ptt_failed, haptic_failed, ready, releasing,
}
use smartmic_windows.Apps.Phone.Live
use smartmic_windows.Apps.Phone.Live.{
  Act, acts, act, IsPress, media_count, act-IsAcknowledged, release_closes, IsAcknowledged,
}
use smartmic_windows.Apps.Service
use smartmic_windows.Apps.Service.{
  RouterControl, SourceControl, Service, announces, announce, loop_round,
}
use smartmic_windows.Apps.Service.Announce
use smartmic_windows.Apps.Service.Announce.{
  announced_once, ready_only_armed, ready_count, owed, starts,
}
use smartmic_windows.Apps.Service.Parts.{router_control, source_control}
use smartmic_windows.Apps.Service.Switch.{announcement_switches, phone_only_unannounced}
use smartmic_windows.Apps.Link
use smartmic_windows.Apps.Link.{World, Reached, live_is_announced, start_count}

-- An encoder of samples that are bytes already.
abbrev plain : Encoder
plain = record { E = ℕ; Sample = ℕ; encode = λ pcm e. (some pcm, e) }

-- A phone that waits for the PC since 1000 ms.
abbrev waiting : Phone plain
waiting = record {
  sender = record { encoder = 0; seq = 0; timestamp = 0; marker = true };
  conn_state = authenticated;
  ptt_state = connecting;
  rtt_ms = 0;
  haptic = Phone.no_haptic;
  pressed = true;
  pressed_at_ms = 1000;
  released_at_ms = 0;
  ping_sent_ms = 0;
  running = true;
  last_error = Phone.no_error;
  pc_status = [];
  last_pairing_retry = 0;
  last_ping = 900;
  outbox = Sent.start_ptt ∷ [];
}

acknowledged : (act plain (Live.controls 1100 Received.ptt_ready) waiting).ptt_state ≡ live
unfolding act on_control
acknowledged = refl

abbrev late_acts : List (Act plain)
late_acts =
    Live.controls 1300 Received.ptt_ready ∷ Live.captures (replicate 960 1) ∷ Live.rounds 2500 ∷ []

release_closes_example :
    let p' = acts plain late_acts (release plain 1200 waiting) in
    (p'.pressed ≡ false)
    × (p'.ptt_state ≢ live)
    × (media_count p'.outbox ≡ media_count (Sent.start_ptt ∷ []))
release_closes_example =
    release_closes plain 1200 late_acts waiting ((λ h. h), ((λ h. h), ((λ h. h), tt)))

-- A phone source that holds enough to play.
abbrev filled : PhoneMediaSource toy_estimator toy_decoder
filled = record {
  buffer = record empty_buffer {
    started = true;
    next_seq = 10;
    queue =
        (10, record { payload = 1 ∷ []; arrival_ms = 0 })
        ∷ (11, record { payload = 2 ∷ []; arrival_ms = 20 })
        ∷ (12, record { payload = 3 ∷ []; arrival_ms = 40 })
        ∷ [];
  };
  decoder = 0;
  started = true;
  malformed = 0;
  last_packet_ms = 40;
}

abbrev rc : RouterControl
rc = router_control steady steady counting

abbrev sc : SourceControl
sc = source_control toy_estimator toy_decoder

abbrev router_in : SourceState → RoutingMode → Router steady steady counting
router_in state mode =
    record (make steady steady counting defaults (some 100) (some 200) (some 0)) {
      sm = record { state = state; mode = mode };
    }

-- A service that owes the phone an announcement.
abbrev owing : Service rc sc
owing = record {
  router = router_in SourceState.phone_arming RoutingMode.auto;
  phone_source = filled;
  ptt_requested = true;
  announced_ready = false;
  last_media_ms = 40;
  outbox = [];
}

announces_run : announces rc sc owing ≡ true
unfolding announces is_ready make JitterBuffer.ready
announces_run = refl

abbrev service_acts : List (Announce.Act rc sc)
service_acts =
    Announce.controls Service.start_ptt
    ∷ Announce.rounds (λ p. p)
    ∷ Announce.controls Service.stop_ptt
    ∷ Announce.controls Service.start_ptt
    ∷ []

one_announced : ready_count (Announce.act rc sc (Announce.rounds (λ p. p)) owing).outbox ≡ 1
unfolding Announce.act loop_round announces announce is_ready make JitterBuffer.ready
one_announced = refl

ready_only_armed_example :
    (drained : sc.P → sc.P) × (◌≡◌ {A = Announce.Act rc sc}
      (Announce.rounds (λ p. p))
      (Announce.rounds drained))
    × (true ≡ true)
    × (false ≡ false)
    × (rc.state owing.router ≡ SourceState.phone_arming)
    × (sc.ready owing.phone_source ≡ true)
    × ((Announce.act rc sc (Announce.rounds (λ p. p)) owing).announced_ready ≡ true)
    × (ready_count (Announce.act rc sc (Announce.rounds (λ p. p)) owing).outbox ≡ suc 0)
ready_only_armed_example =
    ready_only_armed rc sc (Announce.rounds (λ p. p)) owing
      (λ unchanged. ground (arith, one_announced, unchanged))

queue-IsValid : (state : SourceState) (mode : RoutingMode) → IsValid 8 (router_in state mode).events
unfolding make
queue-IsValid state mode = fresh-IsValid 8 0 (omega arith)

queue_empty :
    (state : SourceState) (mode : RoutingMode) → contents (router_in state mode).events ≡ []
unfolding make fresh
queue_empty state mode = refl

steady-IsSteady : IsSteady steady
steady-IsSteady s = refl

announcement_switches_example :
    let s' = loop_round rc sc (λ p. p) owing in
    (s'.router.sm ≡ record { state = SourceState.phone_active; mode = RoutingMode.auto })
    × (s'.outbox ≡ Service.ptt_ready ∷ [])
announcement_switches_example =
    announcement_switches steady steady counting toy_estimator toy_decoder (λ p. p) owing
      steady-IsSteady steady-IsSteady (queue-IsValid SourceState.phone_arming RoutingMode.auto)
      (queue_empty SourceState.phone_arming RoutingMode.auto) (unfold make in refl) refl
      announces_run

abbrev phone_only : Service rc sc
phone_only = record {
  router = router_in SourceState.phone_only RoutingMode.phone_only;
  phone_source = filled;
  ptt_requested = false;
  announced_ready = false;
  last_media_ms = 40;
  outbox = [];
}

-- The phone asks, sends a packet and lets two rounds pass.
abbrev asks_in_vain : List (Announce.Act rc sc)
asks_in_vain =
    Announce.controls Service.start_ptt
    ∷ Announce.hears 60 []
    ∷ Announce.rounds (λ p. p)
    ∷ Announce.rounds (λ p. p)
    ∷ []

phone_only-Confined : Confined phone_only.router
phone_only-Confined = record {
  unarmed = refl;
  queue = queue-IsValid SourceState.phone_only RoutingMode.phone_only;
  inner = subst (All Inner) (sym (queue_empty SourceState.phone_only RoutingMode.phone_only)) tt;
}

phone_only_unannounced_example :
    ready_count (Announce.acts rc sc asks_in_vain phone_only).outbox ≡ 0
phone_only_unannounced_example =
    phone_only_unannounced steady steady counting toy_estimator toy_decoder asks_in_vain phone_only
      (refl, (refl, (refl, (refl, tt)))) phone_only-Confined

announced_once_example :
    ready_count (Announce.acts rc sc service_acts owing).outbox ≤ 0 + owed rc sc owing + 2
announced_once_example = announced_once rc sc service_acts owing

-- The phone pushes, the service hears it and announces, and the phone hears that.
abbrev at_first : World plain rc sc
at_first = record {
  phone = record waiting { ptt_state = ready; pressed = false; outbox = [] };
  service = record owing { ptt_requested = false };
}

abbrev pushed : World plain rc sc
pushed = record at_first { phone = act plain (Live.presses 1000) at_first.phone }

abbrev asked : World plain rc sc
asked = record pushed {
  service = Link.on_request plain rc sc (some Service.start_ptt) 1010 Sent.start_ptt pushed.service;
}

abbrev looped : World plain rc sc
looped = record asked { service = Announce.act rc sc (Announce.rounds (λ p. p)) asked.service }

abbrev heard : World plain rc sc
heard = record looped {
  phone = act plain (Live.controls 1100 (Link.received_of Service.ptt_ready)) looped.phone;
}

start_in_outbox : Memᴰ Sent.start_ptt pushed.phone.outbox
unfolding act press
start_in_outbox = Memᴰ.head refl

ready_in_outbox : Memᴰ Service.ptt_ready looped.service.outbox
unfolding act press Announce.act Service.on_control loop_round announces announce is_ready make
    JitterBuffer.ready start_ptt_call
ready_in_outbox = Memᴰ.head refl

heard-Reached : Reached plain rc sc heard
heard-Reached = Link.phone_hears looped 1100 Service.ptt_ready ready_in_outbox (
    Link.service_loops asked (λ p. p)
      (Link.service_hears pushed 1010 Sent.start_ptt start_in_outbox (
        Link.phone_acts at_first (Live.presses 1000) tt
          (Link.begins at_first (λ h. ground arith) refl refl refl))))

heard_live : heard.phone.ptt_state ≡ live
unfolding act press on_control
heard_live = refl

live_is_announced_example :
    (1 ≤ ready_count heard.service.outbox) × (1 ≤ start_count heard.phone.outbox)
live_is_announced_example = live_is_announced plain rc sc heard heard-Reached heard_live
