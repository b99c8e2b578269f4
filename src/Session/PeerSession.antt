-- ===== src/Session/PeerSession.antt =====
-- shared/session/src/peer_session.cpp and peer_session.h. What the JSON reader makes of a pairing
-- message (its fields read and decoded from base64), the decoder of control messages and the sodium
-- calls are parameters; a random scalar and the time are arguments. What a session sends and passes on
-- goes to its outbox, the last first.
pub mod Choke
pub mod Rewind
use smartmic_windows.Prelude.{
  ℕ, zero, suc, ◌+◌, ◌^◌, Bool, true, false, ◌&&◌, not, List, [], ◌∷◌, Option, none, some, ◌==◌,
  if◌then◌else◌, add64,
}
use smartmic_windows.Protocol.ReplayWindow.{ReplayWindow, accept}
use smartmic_windows.Protocol.ReplayWindow
use smartmic_windows.Media.SecureChannel.{
  Sodium, SecureChannel, Direction, phone_to_pc, pc_to_phone, init, seal, open_packet,
}
use smartmic_windows.Security.Exchange.{
  Group, DeviceIdentity, PairingRole, PairingError, PairingExchange, initiator, responder, ok, make,
  on_peer, auth_signature, verify_peer_auth,
}
use smartmic_windows.Security.Offers.{
  PairingOfferBook, OfferStatus, check, note_failed_attempt, consume, same_text, valid,
}

pub data SessionState : Type 0 where
  idle pairing authenticated failed revoked : SessionState

-- The value under "t" of a pairing message.
pub data HelloKind : Type 0 where
  pair1 pair2 pair3 pair4 pair_err other : HelloKind

pub record Hello : Type 0 where
  pub kind : HelloKind
  pub sid : List ℕ
  pub public_key : Option (List ℕ)
  pub share : Option (List ℕ)
  pub sig : Option (List ℕ)

pub record Message : Type 0 where
  pub seq : ℕ
  pub content : List ℕ

-- What leaves a session: pairing messages and sealed packets to the peer, and the three callbacks.
pub data Output : Type 0 where
  sends_pair1 : List ℕ → List ℕ → List ℕ → Output
  sends_pair2 : List ℕ → List ℕ → Output
  sends_pair3 : List ℕ → Output
  sends_pair4 : List ℕ → Output
  sends_pair_err : Output
  sends_control : List ℕ → Output
  sends_media : List ℕ → Output
  state_changed : SessionState → Output
  on_media : List ℕ → Output
  on_control : Message → Output

-- The reader of pairing texts, and `decode` of control messages. A field that is there but no text makes
-- `value` of the JSON library throw, which nothing catches: such texts are outside the model.
pub record Readers : Type 0 where
  pub parse : List ℕ → Option Hello
  pub decode : List ℕ → Option Message

pub record PeerSession : Type 0 where
  pub self : DeviceIdentity
  pub role : PairingRole
  pub exchange : Option PairingExchange
  pub book : Option PairingOfferBook
  pub pairing_session_id : List ℕ
  pub pairing_hello : Option Output
  pub pending_code : List ℕ
  pub peer_public : Option (List ℕ)
  pub channel : SecureChannel
  pub session_key : List ℕ
  pub state : SessionState
  pub rejected : ℕ
  pub pairing_failures : ℕ
  pub control_replay : ReplayWindow
  pub outbox : List Output

abbrev pub control_width : ℕ
control_width = 512

abbrev pub same_state : SessionState → SessionState → Bool
same_state idle idle = true
same_state pairing pairing = true
same_state authenticated authenticated = true
same_state failed failed = true
same_state revoked revoked = true
same_state _ _ = false

abbrev pub is_ok : PairingError → Bool
is_ok ok = true
is_ok _ = false

abbrev pub is_valid : OfferStatus → Bool
is_valid valid = true
is_valid _ = false

abbrev pub put : Output → PeerSession → PeerSession
put o s = record s { outbox = o ∷ s.outbox }

unfoldable pub set_state : SessionState → PeerSession → PeerSession
set_state to s =
    if same_state s.state to
    then s
    else record s { state = to; outbox = state_changed to ∷ s.outbox }

abbrev pub reject : PeerSession → PeerSession
reject s = record s { rejected = add64 s.rejected 1 }

abbrev pub direction_of : PairingRole → Direction
direction_of initiator = phone_to_pc
direction_of responder = pc_to_phone

abbrev pub on_book :
    (PairingOfferBook → PairingOfferBook) → Option PairingOfferBook → Option PairingOfferBook
on_book f none = none
on_book f (some b) = some (f b)

unfoldable pub arm_pairing : List ℕ → List ℕ → Option PairingOfferBook → PeerSession → PeerSession
unfolding set_state
arm_pairing session_id code book s = set_state pairing (record s {
  pairing_session_id = session_id;
  pending_code = code;
  book = book;
  exchange = none;
})

abbrev pub send_hello : Option Output → PeerSession → Bool × PeerSession
send_hello none s = (false, s)
send_hello (some hello) s = (true, put hello s)

unfoldable pub resend_pairing_hello : PeerSession → Bool × PeerSession
resend_pairing_hello s =
    if not (same_state s.state pairing) then (false, s) else send_hello s.pairing_hello s

module _ (sodium : Sodium) (group : Group) (readers : Readers) where
  unfoldable pub begin_pairing : List ℕ → List ℕ → List ℕ → PeerSession → PeerSession
  unfolding set_state
  begin_pairing session_id code scalar s =
      let x = make group s.self s.role session_id code scalar in
      let hello = sends_pair1 session_id s.self.public_key x.our_share in
      put hello
        (record (set_state pairing
          (record s { pairing_session_id = session_id; exchange = some x })) {
            pairing_hello = some hello;
          })

  unfoldable pub adopt_session_key : List ℕ → PeerSession → PeerSession
  unfolding set_state
  adopt_session_key key s = set_state authenticated (record s {
    session_key = key;
    channel = (init sodium key (direction_of s.role) s.channel).1;
  })

  unfoldable pub establish : PairingExchange → PeerSession → PeerSession
  unfolding set_state
  establish x s = set_state authenticated (record s {
    session_key = x.session_key;
    channel = (init sodium x.session_key (direction_of s.role) s.channel).1;
    control_replay = ReplayWindow.reset;
    book = on_book (consume s.pairing_session_id) s.book;
    pending_code = [];
  })

  -- A failure of the peer that costs an attempt.
  abbrev failed_attempt : PeerSession → PeerSession
  failed_attempt s = record s {
    pairing_failures = add64 s.pairing_failures 1;
    book = on_book (note_failed_attempt s.pairing_session_id) s.book;
  }

  abbrev failure : PeerSession → PeerSession
  failure s = record s { pairing_failures = add64 s.pairing_failures 1 }

  abbrev send_pair2 : PairingExchange → PeerSession → PeerSession
  send_pair2 x s = put (sends_pair2 s.self.public_key x.our_share) s

  -- PAIR1 to a responder, once its key and share have been read: a new exchange.
  answer_new : List ℕ → List ℕ → List ℕ → PeerSession → PeerSession
  unfolding set_state
  answer_new peer share scalar s =
      let (err, x) =
        on_peer group peer share
          (make group s.self s.role s.pairing_session_id s.pending_code scalar) in
      let s' : PeerSession = record s { exchange = some x } in
      if is_ok err
      then send_pair2 x (record s' { peer_public = some peer })
      else set_state failed (put sends_pair_err (failed_attempt s'))

  abbrev is_retry : Option (List ℕ) → List ℕ → Bool
  is_retry none peer = false
  is_retry (some known) peer = same_text known peer

  answer_pair1 : Option PairingExchange → List ℕ → List ℕ → List ℕ → PeerSession → PeerSession
  unfolding answer_new
  answer_pair1 none peer share scalar s = answer_new peer share scalar s
  answer_pair1 (some x) peer share scalar s =
      if is_retry s.peer_public peer then send_pair2 x s else answer_new peer share scalar s

  with_fields :
      Option (List ℕ)
      → Option (List ℕ)
      → (List ℕ → List ℕ → PeerSession → PeerSession)
      → PeerSession
      → PeerSession
  with_fields none share next s = reject s
  with_fields (some peer) none next s = reject s
  with_fields (some peer) (some share) next s = next peer share s

  abbrev offer_refused : ℕ → List ℕ → Option PairingOfferBook → Bool
  offer_refused now sid none = false
  offer_refused now sid (some b) = not (is_valid (check sid now b))

  unfoldable pub on_pair1 : ℕ → List ℕ → Hello → PeerSession → PeerSession
  unfolding set_state with_fields answer_pair1
  on_pair1 now scalar h s =
      if not (same_text h.sid s.pairing_session_id)
      then reject s
      else if offer_refused now h.sid s.book
      then set_state failed (put sends_pair_err s)
      else with_fields h.public_key h.share
          (λ peer share s'. answer_pair1 s'.exchange peer share scalar s') s

  unfoldable pub on_pair2 : Option PairingExchange → Hello → PeerSession → PeerSession
  unfolding set_state with_fields
  on_pair2 none h s = reject s
  on_pair2 (some x) h s =
      with_fields h.public_key h.share
        (λ peer share s'.
          let (err, x') = on_peer group peer share x in
          let s'' : PeerSession = record s' { exchange = some x' } in
          if is_ok err
          then put (sends_pair3 (auth_signature group x')) (record s'' { peer_public = some peer })
          else set_state failed (failure s''))
        s

  check_sig : Option (List ℕ) → PairingExchange → Option PairingError
  check_sig none x = none
  check_sig (some sig) x = some (verify_peer_auth group sig x)

  -- PAIR3 to a responder, for what the check of the signature gave.
  judge_pair3 : Option PairingError → PairingExchange → PeerSession → PeerSession
  unfolding set_state establish
  judge_pair3 none x s = reject s
  judge_pair3 (some err) x s =
      if is_ok err
      then establish x (put (sends_pair4 (auth_signature group x)) s)
      else set_state failed (put sends_pair_err (failed_attempt s))

  unfoldable pub on_pair3 : Option PairingExchange → Hello → PeerSession → PeerSession
  unfolding judge_pair3 check_sig
  on_pair3 none h s = reject s
  on_pair3 (some x) h s = judge_pair3 (check_sig h.sig x) x s

  judge_pair4 : Option PairingError → PairingExchange → PeerSession → PeerSession
  unfolding set_state establish
  judge_pair4 none x s = reject s
  judge_pair4 (some err) x s = if is_ok err then establish x s else set_state failed (failure s)

  unfoldable pub on_pair4 : Option PairingExchange → Hello → PeerSession → PeerSession
  unfolding judge_pair4 check_sig
  on_pair4 none h s = reject s
  on_pair4 (some x) h s = judge_pair4 (check_sig h.sig x) x s

  unfoldable pub on_hello : HelloKind → PairingRole → ℕ → List ℕ → Hello → PeerSession → PeerSession
  unfolding set_state on_pair1 on_pair2 on_pair3 on_pair4
  on_hello pair1 responder now scalar h s = on_pair1 now scalar h s
  on_hello pair2 initiator now scalar h s = on_pair2 s.exchange h s
  on_hello pair3 responder now scalar h s = on_pair3 s.exchange h s
  on_hello pair4 initiator now scalar h s = on_pair4 s.exchange h s
  on_hello pair_err _ now scalar h s = set_state failed (failure s)
  on_hello _ _ now scalar h s = reject s

  parsed : Option Hello → ℕ → List ℕ → PeerSession → PeerSession
  unfolding on_hello
  parsed none now scalar s = reject s
  parsed (some h) now scalar s = on_hello h.kind s.role now scalar h s

  unfoldable pub handle_pairing : ℕ → List ℕ → List ℕ → PeerSession → PeerSession
  unfolding parsed
  handle_pairing now scalar text s = parsed (readers.parse text) now scalar s

  fresh_control : Bool × ReplayWindow → Message → PeerSession → PeerSession
  fresh_control (false, w) m s = reject (record s { control_replay = w })
  fresh_control (true, w) m s = put (on_control m) (record s { control_replay = w })

  decoded : Option Message → PeerSession → PeerSession
  unfolding fresh_control
  decoded none s = reject s
  decoded (some m) s = fresh_control (accept control_width s.control_replay m.seq) m s

  -- `onDatagram` once the body has or has not opened.
  opened : ℕ → Option (List ℕ) → PeerSession → PeerSession
  unfolding decoded
  opened tag none s = reject s
  opened tag (some plain) s =
      if tag == 2
      then put (on_media plain) s
      else if tag == 1
      then decoded (readers.decode plain) s
      else reject s

  unfoldable pub on_datagram : ℕ → List ℕ → List ℕ → PeerSession → PeerSession
  unfolding handle_pairing opened
  on_datagram now scalar [] s = reject s
  on_datagram now scalar (tag ∷ body) s =
      if tag == 0
      then handle_pairing now scalar body s
      else if not (same_state s.state authenticated)
      then reject s
      else (let (plain, ch) = open_packet sodium body s.channel in
          opened tag plain (record s { channel = ch }))

  send_sealed :
      (List ℕ → Output) → Option (List ℕ) × SecureChannel → PeerSession → Bool × PeerSession
  send_sealed tagged (none, ch) s = (false, record s { channel = ch })
  send_sealed tagged (some packet, ch) s = (true, put (tagged packet) (record s { channel = ch }))

  -- `sendControl` of an encoded message; the transport takes what is sent.
  unfoldable pub send_control : List ℕ → PeerSession → Bool × PeerSession
  unfolding send_sealed
  send_control text s =
      if not (same_state s.state authenticated)
      then (false, s)
      else send_sealed sends_control (seal sodium text s.channel) s

  unfoldable pub send_media : List ℕ → PeerSession → Bool × PeerSession
  unfolding send_sealed
  send_media payload s =
      if not (same_state s.state authenticated)
      then (false, s)
      else send_sealed sends_media (seal sodium payload s.channel) s
