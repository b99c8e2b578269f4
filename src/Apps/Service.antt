-- ===== src/Apps/Service.antt =====
-- apps/service/main.cpp: the callbacks and the audio loop of the service. The router and the phone
-- source are used through the operations that the service calls; `Apps.Service.Parts` gives those of
-- this library. What the service asks of its session goes to an outbox, the last first.
pub mod Parts
pub mod Announce
pub mod Switch
use smartmic_windows.Prelude.{
  ℕ, Bool, true, false, ◌&&◌, not, List, [], ◌∷◌, Option, none, some, if◌then◌else◌,
}
use smartmic_windows.Audio.StateMachine.{SourceState, RoutingMode, auto, mute, phone_arming}
use smartmic_windows.Audio.Router.{is_state}

-- `AudioRouter`, as the service uses it.
pub record RouterControl : Type 1 where
  pub R : Type 0
  pub start_ptt : R → R
  pub stop_ptt : R → R
  pub set_mode : RoutingMode → R → R
  pub notify_phone_ready : R → R
  pub notify_phone_heartbeat : R → R
  pub tick : R → R
  pub state : R → SourceState
  pub mode : R → RoutingMode

-- `PhoneMediaSource`, as the service uses it.
pub record SourceControl : Type 1 where
  pub P : Type 0
  pub on_media_payload : List ℕ → ℕ → P → P
  pub ready : P → Bool

-- A control message from the phone; a mode is the text of the field, if it names one of the three
-- modes that are looked for. A mode that is no text, on which `value` throws and nothing
-- catches, is outside the model.
pub data Request : Type 0 where
  start_ptt stop_ptt get_status ping other_request : Request
  set_mode : Option RoutingMode → Request

-- What the service asks of its session.
pub data Reply : Type 0 where
  ptt_preparing ptt_ready ptt_stopped pong : Reply
  status : SourceState → RoutingMode → Reply

abbrev pub mode_or_auto : Option RoutingMode → RoutingMode
mode_or_auto none = auto
mode_or_auto (some m) = m

module _ (rc : RouterControl) (sc : SourceControl) where
  -- The variables of `main` that the callbacks and the loop share.
  pub record Service : Type 0 where
    pub router : rc.R
    pub phone_source : sc.P
    pub ptt_requested : Bool
    pub announced_ready : Bool
    pub last_media_ms : ℕ
    pub outbox : List Reply

  abbrev pub reply : Reply → Service → Service
  reply m s = record s { outbox = m ∷ s.outbox }

  -- `cb.onMedia`
  unfoldable pub on_media : ℕ → List ℕ → Service → Service
  on_media now bytes s = record s {
    last_media_ms = now;
    phone_source = sc.on_media_payload bytes now s.phone_source;
    router = rc.notify_phone_heartbeat s.router;
  }

  -- `cb.onControl`
  unfoldable pub on_control : Request → Service → Service
  on_control start_ptt s =
      reply ptt_preparing
        (record s { ptt_requested = true; announced_ready = false; router = rc.start_ptt s.router })
  on_control stop_ptt s =
      reply ptt_stopped (record s { ptt_requested = false; router = rc.stop_ptt s.router })
  on_control (set_mode m) s = record s { router = rc.set_mode (mode_or_auto m) s.router }
  on_control ping s = reply pong s
  on_control get_status s = reply (status (rc.state s.router) (rc.mode s.router)) s
  on_control other_request s = s

  -- Whether a round of the loop announces that the phone is ready.
  unfoldable pub announces : Service → Bool
  announces s =
      s.ptt_requested
      && not s.announced_ready
      && is_state (rc.state s.router) phone_arming
      && sc.ready s.phone_source

  unfoldable pub announce : Service → Service
  announce s =
      reply ptt_ready (record s { router = rc.notify_phone_ready s.router; announced_ready = true })

  -- A round of the audio loop, below what it prints. A tick of the router reads the phone source
  -- too: `drained` is what that makes of it.
  unfoldable pub loop_round : (sc.P → sc.P) → Service → Service
  unfolding announces announce
  loop_round drained s =
      let s' = if announces s then announce s else s in
      record s' { router = rc.tick s'.router; phone_source = drained s'.phone_source }
