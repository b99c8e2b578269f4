-- ===== src/Apps/Service/Announce.antt =====
-- main.cpp: when the service tells the phone that it is ready.
use smartmic_windows.Prelude.{
  ℕ, suc, ◌+◌, ◌≤◌, ◌≡◌, ◌≢◌, refl, true, false, ◌&&◌, not, List, [], ◌∷◌, arith, if◌then◌else◌,
  Bool-cases, inl, inr,
}
use smartmic_windows.Audio.StateMachine.{phone_arming}
use smartmic_windows.Audio.Router.{is_state}
use smartmic_windows.Apps.Service.{
  RouterControl, SourceControl, Request, Reply, Service, start_ptt, stop_ptt, get_status, ping,
  other_request, set_mode, ptt_preparing, ptt_ready, ptt_stopped, pong, status, on_media,
  on_control, announces, announce, loop_round,
}

-- How many announcements an outbox holds, and how many answers to a start.
abbrev pub ready_count : List Reply → ℕ
ready_count [] = 0
ready_count (ptt_ready ∷ ms) = suc (ready_count ms)
ready_count (ptt_preparing ∷ ms) = ready_count ms
ready_count (ptt_stopped ∷ ms) = ready_count ms
ready_count (pong ∷ ms) = ready_count ms
ready_count (status a b ∷ ms) = ready_count ms

module _ (rc : RouterControl) (sc : SourceControl) where
  -- What happens to the service.
  pub data Act : Type 0 where
    hears : ℕ → List ℕ → Act
    controls : Request → Act
    rounds : (sc.P → sc.P) → Act

  unfoldable pub act : Act → Service rc sc → Service rc sc
  unfolding on_media on_control loop_round
  act (hears now bytes) s = on_media rc sc now bytes s
  act (controls m) s = on_control rc sc m s
  act (rounds drained) s = loop_round rc sc drained s

  abbrev pub acts : List Act → Service rc sc → Service rc sc
  acts [] s = s
  acts (a ∷ as') s = acts as' (act a s)

  -- How many of the acts are a start of push-to-talk.
  abbrev pub starts : List Act → ℕ
  starts [] = 0
  starts (controls start_ptt ∷ as') = suc (starts as')
  starts (controls stop_ptt ∷ as') = starts as'
  starts (controls get_status ∷ as') = starts as'
  starts (controls ping ∷ as') = starts as'
  starts (controls other_request ∷ as') = starts as'
  starts (controls (set_mode m) ∷ as') = starts as'
  starts (hears now bytes ∷ as') = starts as'
  starts (rounds drained ∷ as') = starts as'

  -- An announcement that is still owed.
  abbrev pub owed : Service rc sc → ℕ
  owed s = if s.ptt_requested && not s.announced_ready then 1 else 0

  loop_round-ready :
      (drained : sc.P → sc.P) (s : Service rc sc)
      → let s' = loop_round rc sc drained s in
        ready_count s'.outbox + owed s' ≡ ready_count s.outbox + owed s
  unfolding loop_round announces announce
  loop_round-ready drained s = ground arith

  act-ready :
      (a : Act) (s : Service rc sc)
      → let s' = act a s in
        ready_count s'.outbox + owed s' ≤ ready_count s.outbox + owed s + starts (a ∷ [])
  unfolding act on_media on_control
  act-ready (hears now bytes) s = omega arith
  act-ready (controls start_ptt) s = ground arith
  act-ready (controls stop_ptt) s = ground arith
  act-ready (controls get_status) s = omega arith
  act-ready (controls ping) s = omega arith
  act-ready (controls other_request) s = omega arith
  act-ready (controls (set_mode m)) s = omega arith
  act-ready (rounds drained) s = omega (arith, loop_round-ready drained s)

  starts-cons : (a : Act) (as' : List Act) → starts (a ∷ as') ≡ starts (a ∷ []) + starts as'
  starts-cons (controls start_ptt) as' = omega arith
  starts-cons (controls stop_ptt) as' = omega arith
  starts-cons (controls get_status) as' = omega arith
  starts-cons (controls ping) as' = omega arith
  starts-cons (controls other_request) as' = omega arith
  starts-cons (controls (set_mode m)) as' = omega arith
  starts-cons (hears now bytes) as' = omega arith
  starts-cons (rounds drained) as' = omega arith

  -- Over any requests, media and rounds, from any state of the service: no more announcements are
  -- made than there are starts of push-to-talk, and the one that the service may owe at first.
  pub announced_once :
      (as' : List Act) (s : Service rc sc)
      → ready_count (acts as' s).outbox ≤ ready_count s.outbox + owed s + starts as'
  announced_once [] s = omega arith
  announced_once (a ∷ as') s =
      omega (arith, announced_once as' (act a s), act-ready a s, starts-cons a as')

  is_arming : (x : rc.R) → is_state (rc.state x) phone_arming ≡ true → rc.state x ≡ phone_arming
  is_arming x h = ground arith

  pub announces-armed :
      (s : Service rc sc)
      → announces rc sc s ≡ true
      → (s.ptt_requested ≡ true)
        × (s.announced_ready ≡ false)
        × (rc.state s.router ≡ phone_arming)
        × (sc.ready s.phone_source ≡ true)
  unfolding announces
  announces-armed s h =
      let all : (s.ptt_requested ≡ true)
          × (s.announced_ready ≡ false)
          × (is_state (rc.state s.router) phone_arming ≡ true)
          × (sc.ready s.phone_source ≡ true) =
        ground arith in
      (all.0, all.1, is_arming s.router all.2, all.3)

  -- The service announces that the phone is ready at no other time than in a round of its loop with
  -- a push-to-talk requested and not yet announced, the router waiting for the phone, and audio of
  -- the phone that can be decoded at hand; and then the announcement counts as made.
  pub ready_only_armed :
      (a : Act) (s : Service rc sc)
      → ready_count (act a s).outbox ≢ ready_count s.outbox
      → (drained : sc.P → sc.P) × (a ≡ rounds drained)
        × (s.ptt_requested ≡ true)
        × (s.announced_ready ≡ false)
        × (rc.state s.router ≡ phone_arming)
        × (sc.ready s.phone_source ≡ true)
        × ((act a s).announced_ready ≡ true)
        × (ready_count (act a s).outbox ≡ suc (ready_count s.outbox))
  unfolding act on_media on_control loop_round announce
  ready_only_armed (hears now bytes) s new = absurd (new refl)
  ready_only_armed (controls start_ptt) s new = absurd (new refl)
  ready_only_armed (controls stop_ptt) s new = absurd (new refl)
  ready_only_armed (controls get_status) s new = absurd (new refl)
  ready_only_armed (controls ping) s new = absurd (new refl)
  ready_only_armed (controls other_request) s new = absurd (new refl)
  ready_only_armed (controls (set_mode m)) s new = absurd (new refl)
  ready_only_armed (rounds drained) s new = elim (Bool-cases (announces rc sc s)) [
    | inr silent ↦ absurd (new (ground (arith, silent)))
    | inl announced ↦
        let (requested, fresh, arming, decodable) = announces-armed s announced in
        (
          drained,
          refl,
          requested,
          fresh,
          arming,
          decodable,
          ground (arith, announced),
          ground (arith, announced),
        )
  ]
