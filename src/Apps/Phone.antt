-- ===== src/Apps/Phone.antt =====
-- apps/phone-core/phone_runtime.cpp: the engine behind the phone's user interface. The Opus encoder
-- is a parameter; times are arguments. What the phone asks of its session goes to an outbox, the
-- last first; the session numbers and seals it. Calls, the worker's rounds and callbacks run one
-- after another, but the worker reads the clock before it looks at the state. The level meter and
-- the texts that are only shown are not modelled.
pub mod Live
pub mod Worker
use smartmic_windows.Prelude.{
  ℕ, ◌-◌, ◌%◌, ◌^◌, Bool, true, false, ◌&&◌, ◌||◌, not, List, [], ◌∷◌, Option, none, some, length,
  ltb, ◌==◌, if◌then◌else◌, sub64,
}
use smartmic_windows.Audio.StateMachine.{RoutingMode, auto, mute}
use smartmic_windows.Audio.Crossfade.{frame_samples}
use smartmic_windows.Media.PhoneSource.{Encoder, MediaSender, pack_frame, reset_sender}
use smartmic_windows.Session.PeerSession.{SessionState}

abbrev pub arm_timeout_ms : ℕ
arm_timeout_ms = 1500

abbrev pub release_timeout_ms : ℕ
release_timeout_ms = 800

-- SM_CONN_IDLE and the others.
pub data Conn : Type 0 where
  idle pairing authenticated conn_failed : Conn

-- SM_PTT_READY and the others.
pub data Ptt : Type 0 where
  ready connecting live releasing ptt_failed : Ptt

-- SM_HAPTIC_NONE and the others.
pub data Haptic : Type 0 where
  no_haptic went_live returned haptic_failed : Haptic

-- What `setError` is called with.
pub data Error : Type 0 where
  no_error reported_an_error not_accepted pairing_failed microphone_unavailable : Error
  cannot_reach : Error
  reported : List ℕ → Error

-- What the phone asks of its session.
pub data Sent : Type 0 where
  begins_pairing resends_hello start_ptt stop_ptt : Sent
  ping : Bool → Sent
  set_mode : RoutingMode → Sent
  media : List ℕ → Sent

-- A control message from the PC, with the field that the phone reads of it.
pub data Received : Type 0 where
  ptt_ready ptt_stopped pong : Received
  status : List ℕ → Received
  error : Option (List ℕ) → Received
  other_message : Received

abbrev pub is_authenticated : Conn → Bool
is_authenticated authenticated = true
is_authenticated _ = false

abbrev pub is_pairing : Conn → Bool
is_pairing pairing = true
is_pairing _ = false

abbrev pub is_ready : Ptt → Bool
is_ready ready = true
is_ready _ = false

abbrev pub is_connecting : Ptt → Bool
is_connecting connecting = true
is_connecting _ = false

abbrev pub is_releasing : Ptt → Bool
is_releasing releasing = true
is_releasing _ = false

abbrev pub error_of : Option (List ℕ) → Error
error_of none = reported_an_error
error_of (some text) = reported text

abbrev pub mode_of : ℕ → RoutingMode
mode_of n =
    if n == 1
    then RoutingMode.phone_only
    else if n == 2
    then RoutingMode.local_only
    else if n == 3
    then mute
    else auto

module _ (enc : Encoder) where
  -- `sm_phone`, and the two variables of `workerMain`; `rtt_ms` is the 32-bit word of the int.
  pub record Phone : Type 0 where
    pub sender : MediaSender enc
    pub conn_state : Conn
    pub ptt_state : Ptt
    pub rtt_ms : ℕ
    pub haptic : Haptic
    pub pressed : Bool
    pub pressed_at_ms : ℕ
    pub released_at_ms : ℕ
    pub ping_sent_ms : ℕ
    pub running : Bool
    pub last_error : Error
    pub pc_status : List ℕ
    pub last_pairing_retry : ℕ
    pub last_ping : ℕ
    pub outbox : List Sent

  abbrev pub say : Sent → Phone → Phone
  say m p = record p { outbox = m ∷ p.outbox }

  -- `onControl`
  unfoldable pub on_control : ℕ → Received → Phone → Phone
  on_control now ptt_ready p =
      if p.pressed then record p { ptt_state = live; haptic = went_live } else p
  on_control now ptt_stopped p = record p { ptt_state = ready; haptic = returned }
  on_control now pong p =
      if p.ping_sent_ms == 0 then p else record p { rtt_ms = sub64 now p.ping_sent_ms % 2 ^ 32 }
  on_control now (status text) p = record p { pc_status = text }
  on_control now (error text) p = record p { last_error = error_of text }
  on_control now other_message p = p

  -- The end of `onCaptureFrame`.
  abbrev pub send_packed : Option (List ℕ) × MediaSender enc → Phone → Phone
  send_packed (none, s) p = record p { sender = s }
  send_packed (some payload, s) p = say (media payload) (record p { sender = s })

  -- `onCaptureFrame`, below the level meter.
  unfoldable pub on_capture_frame : List enc.Sample → Phone → Phone
  unfolding pack_frame
  on_capture_frame pcm p =
      if not p.pressed || not (is_authenticated p.conn_state)
      then p
      else if not (length pcm == frame_samples)
      then p
      else send_packed (pack_frame enc pcm true p.sender) p

  -- The parts of a round of `workerMain` that began at `t`.
  unfoldable pub retry_pairing : ℕ → Phone → Phone
  retry_pairing t p =
      if is_pairing p.conn_state && ltb 400 (sub64 t p.last_pairing_retry)
      then say resends_hello (record p { last_pairing_retry = t })
      else p

  unfoldable pub send_ping : ℕ → Phone → Phone
  send_ping t p =
      if ltb 1000 (sub64 t p.last_ping)
      then say (ping p.pressed) (record p { ping_sent_ms = t; last_ping = t })
      else p

  unfoldable pub arm_expires : ℕ → Phone → Phone
  arm_expires t p =
      if is_connecting p.ptt_state && ltb arm_timeout_ms (sub64 t p.pressed_at_ms)
      then record p {
        ptt_state = ptt_failed;
        haptic = haptic_failed;
        pressed = false;
        last_error = not_accepted;
      }
      else p

  unfoldable pub release_expires : ℕ → Phone → Phone
  release_expires t p =
      if is_releasing p.ptt_state && ltb release_timeout_ms (sub64 t p.released_at_ms)
      then record p { ptt_state = ready }
      else p

  -- A round of `workerMain`.
  unfoldable pub worker_round : ℕ → Phone → Phone
  unfolding retry_pairing send_ping arm_expires release_expires
  worker_round t p =
      let p' = retry_pairing t p in
      if is_authenticated p'.conn_state
      then release_expires t (arm_expires t (send_ping t p'))
      else p'

  -- `cb.onStateChanged`
  unfoldable pub on_state_changed : SessionState → Phone → Phone
  on_state_changed SessionState.pairing p = record p { conn_state = pairing }
  on_state_changed SessionState.authenticated p = record p { conn_state = authenticated }
  on_state_changed SessionState.failed p = record p {
    conn_state = conn_failed;
    last_error = pairing_failed;
  }
  on_state_changed _ p = p

  -- `sm_phone_take_haptic`
  unfoldable pub take_haptic : Phone → Haptic × Phone
  take_haptic p = (p.haptic, record p { haptic = no_haptic })

  -- `sm_phone_press`, of a handle.
  unfoldable pub press : ℕ → Phone → Phone
  unfolding reset_sender
  press now p =
      if not (is_authenticated p.conn_state)
      then p
      else if p.pressed
      then p
      else say start_ptt (record p {
        pressed = true;
        pressed_at_ms = now;
        ptt_state = connecting;
        sender = reset_sender enc p.sender;
      })

  -- `sm_phone_release`, of a handle.
  unfoldable pub release : ℕ → Phone → Phone
  release now p =
      if not (is_authenticated p.conn_state)
      then record p { pressed = false; ptt_state = ready }
      else say stop_ptt (record p {
        pressed = false;
        released_at_ms = now;
        ptt_state = if is_ready p.ptt_state then p.ptt_state else releasing;
      })

  -- `sm_phone_set_mode`, of a handle.
  unfoldable pub change_mode : ℕ → Phone → Phone
  change_mode mode p =
      if not (is_authenticated p.conn_state) then p else say (set_mode (mode_of mode)) p

  -- `sm_phone_destroy`: what the phone has said at the end.
  unfoldable pub destroy : ℕ → Phone → Phone
  unfolding release
  destroy now p = record (release now p) { running = false }

  -- `sm_phone_create` of valid arguments, with the sender that `open` gives, where the transport
  -- and the microphone start or not.
  unfoldable pub create : Bool → Bool → MediaSender enc → Phone
  create transport_starts microphone_starts s =
      let p : Phone = record {
        sender = s;
        conn_state = idle;
        ptt_state = ready;
        rtt_ms = 2 ^ 32 - 1;
        haptic = no_haptic;
        pressed = false;
        pressed_at_ms = 0;
        released_at_ms = 0;
        ping_sent_ms = 0;
        running = false;
        last_error = no_error;
        pc_status = [];
        last_pairing_retry = 0;
        last_ping = 0;
        outbox = [];
      } in
      if not transport_starts
      then record p { last_error = cannot_reach; conn_state = conn_failed }
      else say begins_pairing (record p {
        running = true;
        last_error = if microphone_starts then no_error else microphone_unavailable;
      })
