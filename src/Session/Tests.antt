-- ===== src/Session/Tests.antt =====
-- The session on concrete data: pairing messages are the number of their kind.
use smartmic_windows.Prelude.{ℕ, Option, true, ◌≡◌, ◌⊎◌, refl, List, [], ◌∷◌, ◌++◌, none, some}
use smartmic_windows.Protocol.ReplayWindow.{reset}
use smartmic_windows.Media.Bytes.{le_bytes}
use smartmic_windows.Media.SecureChannel.{seal, build_nonce, key_id, nonce_id, pc_to_phone}
use smartmic_windows.Media.Tests.{toy_sodium, blank}
use smartmic_windows.Security.Exchange.{
  PairingExchange, responder, ok, verify_peer_auth, auth_message,
}
use smartmic_windows.Security.Tests.{toy_group, pc_identity}
use smartmic_windows.Session.PeerSession.{
  PeerSession, Hello, Readers, pair3, pair_err, pairing, authenticated, on_datagram, on_hello,
}
use smartmic_windows.Session.PeerSession.Choke.{Closed, Signed, authenticated_only-Signed}
use smartmic_windows.Session.PeerSession.Rewind.{Paired, pair3_rewinds}

abbrev derived_exchange : PairingExchange
derived_exchange = record {
  self = pc_identity;
  role = responder;
  session_id = 9 ∷ [];
  peer_public = 10 ∷ [];
  generator = 3 ∷ [];
  our_share = 10 ∷ [];
  peer_share = 8 ∷ [];
  scalar = [];
  session_key = 6 ∷ [];
  transcript = 5 ∷ [];
  derived = true;
}

-- The signature that the toy group takes for the exchange.
abbrev right_sig : List ℕ
unfolding auth_message
right_sig = auth_message (5 ∷ []) (6 ∷ [])

abbrev third : Hello
third = record { kind = pair3; sid = []; public_key = none; share = none; sig = some right_sig }

abbrev refusal : Hello
refusal = record { kind = pair_err; sid = []; public_key = none; share = none; sig = none }

abbrev read_text : List ℕ → Option Hello
read_text [] = none
read_text (n ∷ []) = some third
read_text (n ∷ (m ∷ ns)) = some refusal

abbrev toy_readers : Readers
toy_readers = record {
  parse = read_text;
  decode = λ text. some (record { seq = 1; content = text });
}

-- A session that is authenticated and has sent seven packets.
abbrev running : PeerSession
running = record {
  self = pc_identity;
  role = responder;
  exchange = some derived_exchange;
  book = none;
  pairing_session_id = 9 ∷ [];
  pairing_hello = none;
  pending_code = [];
  peer_public = some (10 ∷ []);
  channel = record blank { initialised = true; counter = 7 };
  session_key = 6 ∷ [];
  state = authenticated;
  rejected = 0;
  pairing_failures = 0;
  control_replay = reset;
  outbox = [];
}

abbrev waiting_session : PeerSession
waiting_session = record running { state = pairing }

accepted : verify_peer_auth toy_group right_sig derived_exchange ≡ ok
unfolding verify_peer_auth right_sig
accepted = refl

pair3_rewinds_example :
    let first = on_datagram toy_sodium toy_group toy_readers 0 [] (0 ∷ (3 ∷ [])) waiting_session in
    let again = on_datagram toy_sodium toy_group toy_readers 8 [] (0 ∷ (3 ∷ [])) running in
    Paired toy_sodium toy_group toy_readers derived_exchange first
    × Paired toy_sodium toy_group toy_readers derived_exchange again
    × ((plain : List ℕ)
        → (seal toy_sodium plain again.channel).0 ≡ (seal toy_sodium plain first.channel).0)
    × ((plain : List ℕ)
        → (seal toy_sodium plain again.channel).0
          ≡ some (
              le_bytes 8 0
              ++ toy_sodium.seal_box
                  (toy_sodium.derive 32 (key_id pc_to_phone) derived_exchange.session_key)
                  (build_nonce
                    (toy_sodium.derive 16 (nonce_id pc_to_phone) derived_exchange.session_key)
                    0)
                  plain))
pair3_rewinds_example =
    pair3_rewinds toy_sodium toy_group toy_readers 0 8 [] [] (3 ∷ []) right_sig third
      derived_exchange waiting_session running refl refl refl refl accepted (refl, refl)
      (refl, refl)

authenticated_only-Signed_example :
    Signed toy_sodium toy_group toy_readers third waiting_session.exchange
    ⊎ Closed (on_hello toy_sodium toy_group toy_readers pair3 responder 0 [] third waiting_session)
authenticated_only-Signed_example =
    authenticated_only-Signed toy_sodium toy_group toy_readers pair3 responder 0 [] third
      waiting_session (record { shut = refl })
