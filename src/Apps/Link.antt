-- ===== src/Apps/Link.antt =====
-- The phone and the service together, over a network that may lose, delay, reorder and repeat what
-- the two sessions carry, and forge nothing (Media.SecureChannel and Session.PeerSession are about
-- that): each side hears only what the other has said at some time.
use smartmic_windows.Prelude.{
  ℕ, suc, ◌≤◌, ◌≢◌, ◌≡◌, ◌≢◌, ◌⊎◌, inl, inr, refl, sym, ap, ◌∙◌, subst, true, false, List, [], ◌∷◌,
  Option, none, some, arith,
}
use mathlib.Core.List.{Memᴰ}
use native.Mathlib.Decide.{dec_lt}
use smartmic_windows.Media.PhoneSource.{Encoder}
use smartmic_windows.Apps.Phone
use smartmic_windows.Apps.Phone.{Phone, Ptt, Sent, Received, live}
use smartmic_windows.Apps.Phone.Live
use smartmic_windows.Apps.Service
use smartmic_windows.Apps.Service.{RouterControl, SourceControl, Service, Request, Reply}
use smartmic_windows.Apps.Service.Announce
use smartmic_windows.Apps.Service.Announce.{ready_count}

-- The service's reading of what the phone says: a request, unless it is media or pairing.
abbrev pub request_of : Sent → Option Request
request_of Sent.start_ptt = some Request.start_ptt
request_of Sent.stop_ptt = some Request.stop_ptt
request_of (Sent.ping b) = some Request.ping
request_of (Sent.set_mode m) = some (Request.set_mode (some m))
request_of (Sent.media bytes) = none
request_of Sent.begins_pairing = none
request_of Sent.resends_hello = none

-- The phone's reading of what the service says.
abbrev pub received_of : Reply → Received
received_of Reply.ptt_preparing = Received.other_message
received_of Reply.ptt_ready = Received.ptt_ready
received_of Reply.ptt_stopped = Received.ptt_stopped
received_of Reply.pong = Received.pong
received_of (Reply.status s m) = Received.status []

-- How many starts of push-to-talk the phone has said.
abbrev pub start_count : List Sent → ℕ
start_count [] = 0
start_count (Sent.start_ptt ∷ ms) = suc (start_count ms)
start_count (Sent.stop_ptt ∷ ms) = start_count ms
start_count (Sent.ping b ∷ ms) = start_count ms
start_count (Sent.set_mode m ∷ ms) = start_count ms
start_count (Sent.media bytes ∷ ms) = start_count ms
start_count (Sent.begins_pairing ∷ ms) = start_count ms
start_count (Sent.resends_hello ∷ ms) = start_count ms

start_said : (ms : List Sent) → Memᴰ Sent.start_ptt ms → 1 ≤ start_count ms
start_said [] h = elim h [ ]
start_said (m ∷ ms) (Memᴰ.head e) = subst (λ x. 1 ≤ start_count (x ∷ ms)) e (omega arith)
start_said (m ∷ ms) (Memᴰ.tail t) = one_more m (start_said ms t)
  where
    one_more : (x : Sent) → 1 ≤ start_count ms → 1 ≤ start_count (x ∷ ms)
    one_more x h = ground arith

ready_said : (ms : List Reply) → Memᴰ Reply.ptt_ready ms → 1 ≤ ready_count ms
ready_said [] h = elim h [ ]
ready_said (m ∷ ms) (Memᴰ.head e) = subst (λ x. 1 ≤ ready_count (x ∷ ms)) e (omega arith)
ready_said (m ∷ ms) (Memᴰ.tail t) = one_more m (ready_said ms t)
  where
    one_more : (x : Reply) → 1 ≤ ready_count ms → 1 ≤ ready_count (x ∷ ms)
    one_more x h = ground arith

module _ (enc : Encoder) (rc : RouterControl) (sc : SourceControl) where
  pub record World : Type 0 where
    pub phone : Phone enc
    pub service : Service rc sc

  abbrev pub on_request : Option Request → ℕ → Sent → Service rc sc → Service rc sc
  on_request (some m) now said s = Announce.act rc sc (Announce.controls m) s
  on_request none now (Sent.media bytes) s = Announce.act rc sc (Announce.hears now bytes) s
  on_request none now said s = s

  -- The acts of the phone alone: all but hearing the PC.
  abbrev pub IsOwn : Live.Act enc → Type 0
  IsOwn (Live.controls now m) = ⊥
  IsOwn _ = Unit

  -- The states that the two can come to from a phone and a service that have said nothing yet.
  pub data Reached : World → Type 0 where
    begins :
        (w : World)
        → w.phone.ptt_state ≢ live
        → w.phone.outbox ≡ []
        → w.service.outbox ≡ []
        → w.service.ptt_requested ≡ false
        → Reached w
    phone_acts :
        (w : World) (a : Live.Act enc)
        → IsOwn a
        → Reached w
        → Reached (record w { phone = Live.act enc a w.phone })
    service_hears :
        (w : World) (now : ℕ) (said : Sent)
        → Memᴰ said w.phone.outbox
        → Reached w
        → Reached (record w { service = on_request (request_of said) now said w.service })
    phone_hears :
        (w : World) (now : ℕ) (said : Reply)
        → Memᴰ said w.service.outbox
        → Reached w
        → Reached (record w { phone = Live.act enc (Live.controls now (received_of said)) w.phone })
    service_loops :
        (w : World) (drained : sc.P → sc.P)
        → Reached w
        → Reached (record w { service = Announce.act rc sc (Announce.rounds drained) w.service })

  -- What holds of every state that is reached.
  record Invariant (w : World) : Type 0 where
    live_announced : w.phone.ptt_state ≡ live → 1 ≤ ready_count w.service.outbox
    announced_started : 1 ≤ ready_count w.service.outbox → 1 ≤ start_count w.phone.outbox
    requested_started : w.service.ptt_requested ≡ true → 1 ≤ start_count w.phone.outbox

  act-start_count :
      (a : Live.Act enc) (p : Phone enc)
      → start_count p.outbox ≤ start_count (Live.act enc a p).outbox
  unfolding Live.act Phone.on_control Phone.on_capture_frame Phone.worker_round Phone.retry_pairing
      Phone.send_ping Phone.arm_expires Phone.release_expires Phone.on_state_changed
      Phone.take_haptic Phone.press Phone.release Phone.change_mode
  act-start_count (Live.controls now m) p = ground arith
  act-start_count (Live.captures pcm) p = ground arith
  act-start_count (Live.rounds t) p = ground arith
  act-start_count (Live.changes s) p = ground arith
  act-start_count Live.takes_haptic p = omega arith
  act-start_count (Live.presses now) p = ground arith
  act-start_count (Live.releases now) p = ground arith
  act-start_count (Live.changes_mode n) p = ground arith

  live-cases : (x : Ptt) → (x ≡ live) ⊎ (x ≢ live)
  live-cases x = ground arith

  own-unacknowledged : (a : Live.Act enc) (p : Phone enc) → IsOwn a → ¬ Live.IsAcknowledged enc a p
  own-unacknowledged (Live.controls now m) p own = absurd own
  own-unacknowledged (Live.captures pcm) p own = λ h. h
  own-unacknowledged (Live.rounds t) p own = λ h. h
  own-unacknowledged (Live.changes s) p own = λ h. h
  own-unacknowledged Live.takes_haptic p own = λ h. h
  own-unacknowledged (Live.presses now) p own = λ h. h
  own-unacknowledged (Live.releases now) p own = λ h. h
  own-unacknowledged (Live.changes_mode n) p own = λ h. h

  -- The phone's own acts do not make it live.
  own-quiet :
      (a : Live.Act enc) (p : Phone enc)
      → IsOwn a
      → (Live.act enc a p).ptt_state ≡ live
      → p.ptt_state ≡ live
  own-quiet a p own now_live = elim (live-cases p.ptt_state) [
    | inl already ↦ already
    | inr quiet ↦
        absurd (own-unacknowledged a p own (Live.act-IsAcknowledged enc a p quiet now_live))
  ]

  -- Hearing anything else than that the PC is ready does not make the phone live.
  hears-quiet :
      (now : ℕ) (said : Reply) (p : Phone enc)
      → (Live.act enc (Live.controls now (received_of said)) p).ptt_state ≡ live
      → (p.ptt_state ≡ live) ⊎ (said ≡ Reply.ptt_ready)
  unfolding Live.act Phone.on_control
  hears-quiet now Reply.ptt_preparing p now_live = inl (ground arith)
  hears-quiet now Reply.ptt_ready p now_live = inr refl
  hears-quiet now Reply.ptt_stopped p now_live = inl (ground arith)
  hears-quiet now Reply.pong p now_live = inl (ground arith)
  hears-quiet now (Reply.status s m) p now_live = inl (ground arith)

  service-ready :
      (now : ℕ) (said : Sent) (s : Service rc sc)
      → let s' = on_request (request_of said) now said s in
        (ready_count s'.outbox ≡ ready_count s.outbox)
        × (s'.ptt_requested ≡ true → (s.ptt_requested ≡ true) ⊎ (said ≡ Sent.start_ptt))
  unfolding Announce.act Service.on_media Service.on_control
  service-ready now Sent.start_ptt s = (refl, λ h. inr refl)
  service-ready now Sent.stop_ptt s = ground arith
  service-ready now (Sent.ping b) s = (refl, inl)
  service-ready now (Sent.set_mode m) s = (refl, inl)
  service-ready now (Sent.media bytes) s = (refl, inl)
  service-ready now Sent.begins_pairing s = (refl, inl)
  service-ready now Sent.resends_hello s = (refl, inl)

  loop-ready :
      (drained : sc.P → sc.P) (s : Service rc sc)
      → let s' = Announce.act rc sc (Announce.rounds drained) s in
        (s'.ptt_requested ≡ s.ptt_requested)
        × (ready_count s.outbox ≤ ready_count s'.outbox)
        × (ready_count s'.outbox ≢ ready_count s.outbox → s.ptt_requested ≡ true)
  unfolding Announce.act Service.loop_round Service.announces Service.announce
  loop-ready drained s = (
    ground arith,
    ground arith,
    λ new. (Announce.ready_only_armed rc sc (Announce.rounds drained) s new).2,
  )

  Reached-Invariant : (w : World) → Reached w → Invariant w
  Reached-Invariant _ (begins w quiet unsaid nothing idle) = record {
    live_announced = λ now_live. absurd (quiet now_live);
    announced_started = λ h. absurd (omega (arith, h, ap ready_count nothing));
    requested_started = λ h. ground arith;
  }
  Reached-Invariant _ (phone_acts w a own r) =
      let v = Reached-Invariant w r in
      let more = act-start_count a w.phone in
      record {
        live_announced = λ now_live. v.live_announced (own-quiet a w.phone own now_live);
        announced_started = λ h. omega (arith, more, v.announced_started h);
        requested_started = λ h. omega (arith, more, v.requested_started h);
      }
  Reached-Invariant _ (service_hears w now said m r) =
      let v = Reached-Invariant w r in
      let (same, requested) = service-ready now said w.service in
      record {
        live_announced = λ now_live. omega (arith, same, v.live_announced now_live);
        announced_started = λ h. v.announced_started (omega (arith, same, h));
        requested_started = λ h. elim (requested h) [
          | inl before ↦ v.requested_started before
          | inr start ↦ start_said w.phone.outbox (subst (λ x. Memᴰ x w.phone.outbox) start m)
        ];
      }
  Reached-Invariant _ (phone_hears w now said m r) =
      let v = Reached-Invariant w r in
      let more = act-start_count (Live.controls now (received_of said)) w.phone in
      record {
        live_announced = λ now_live. elim (hears-quiet now said w.phone now_live) [
          | inl before ↦ v.live_announced before
          | inr announced ↦
              ready_said w.service.outbox (subst (λ x. Memᴰ x w.service.outbox) announced m)
        ];
        announced_started = λ h. omega (arith, more, v.announced_started h);
        requested_started = λ h. omega (arith, more, v.requested_started h);
      }
  Reached-Invariant _ (service_loops w drained r) =
      let v = Reached-Invariant w r in
      let (same, more, new) = loop-ready drained w.service in
      let s' = Announce.act rc sc (Announce.rounds drained) w.service in
      record {
        live_announced = λ now_live. omega (arith, more, v.live_announced now_live);
        announced_started = λ h.
            elim (dec_lt (ready_count w.service.outbox) (ready_count s'.outbox)) [
              | yes lt ↦ v.requested_started (new (omega (arith, lt)))
              | no not_lt ↦ v.announced_started (omega (arith, not_lt, more, h))
            ];
        requested_started = λ h. v.requested_started (sym same ∙ h);
      }

  -- Whenever the phone is live, with any acts of its user, any losses, delays, repetitions and
  -- reordering on the network in both directions, and any times: the service has announced that the
  -- phone is ready, and the phone has asked for it with a start of push-to-talk.
  pub live_is_announced :
      (w : World)
      → Reached w
      → w.phone.ptt_state ≡ live
      → (1 ≤ ready_count w.service.outbox) × (1 ≤ start_count w.phone.outbox)
  live_is_announced w r now_live =
      let v = Reached-Invariant w r in
      let announced = v.live_announced now_live in (announced, v.announced_started announced)
