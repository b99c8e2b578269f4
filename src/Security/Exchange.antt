-- ===== src/Security/Exchange.antt =====
-- PairingExchange of shared/security/src/pairing.cpp and pairing.h. The group, the hashes and the
-- signatures are a parameter; group elements, keys and signatures are lists of bytes.
pub mod Agreement
use smartmic_windows.Prelude.{
  ℕ, zero, suc, Bool, true, false, not, List, [], ◌∷◌, ◌++◌, Option, none, some, length, replicate,
  if◌then◌else◌,
}
use smartmic_windows.Media.Bytes.{le_bytes}

-- The sodium calls: the generator from the hash of a seed, scalar multiplication (`none` when it
-- fails), the tests on an element, the hash of a session key, and the identity's signatures.
pub record Group : Type 0 where
  pub generator_of : List ℕ → List ℕ
  pub times : List ℕ → List ℕ → Option (List ℕ)
  pub is_zero : List ℕ → Bool
  pub is_valid_point : List ℕ → Bool
  pub hash : List ℕ → List ℕ → List ℕ
  pub sign : List ℕ → List ℕ → List ℕ
  pub verify : List ℕ → List ℕ → List ℕ → Bool

pub data PairingRole : Type 0 where
  initiator responder : PairingRole

pub data PairingError : Type 0 where
  ok not_ready invalid_peer_element scalar_mult_failed bad_signature wrong_state : PairingError

-- A device's own key pair.
pub record DeviceIdentity : Type 0 where
  pub secret_key : List ℕ
  pub public_key : List ℕ

pub record PairingExchange : Type 0 where
  pub self : DeviceIdentity
  pub role : PairingRole
  pub session_id : List ℕ
  pub peer_public : List ℕ
  pub generator : List ℕ
  pub our_share : List ℕ
  pub peer_share : List ℕ
  pub scalar : List ℕ
  pub session_key : List ℕ
  pub transcript : List ℕ
  pub derived : Bool

-- `appendLengthPrefixed`.
abbrev pub prefixed : List ℕ → List ℕ
prefixed field = le_bytes 4 (length field) ++ field

-- The strings that separate the hashes.
abbrev dsi_generator : List ℕ
dsi_generator =
    83 ∷ 109 ∷ 97 ∷ 114 ∷ 116 ∷ 77 ∷ 105 ∷ 99 ∷ 45 ∷ 67 ∷ 80 ∷ 97 ∷ 99 ∷ 101 ∷ 45 ∷ 118 ∷ 49 ∷ 45
    ∷ 103 ∷ 101 ∷ 110 ∷ 101 ∷ 114 ∷ 97 ∷ 116 ∷ 111 ∷ 114 ∷ []

abbrev dsi_transcript : List ℕ
dsi_transcript =
    83 ∷ 109 ∷ 97 ∷ 114 ∷ 116 ∷ 77 ∷ 105 ∷ 99 ∷ 45 ∷ 67 ∷ 80 ∷ 97 ∷ 99 ∷ 101 ∷ 45 ∷ 118 ∷ 49 ∷ 45
    ∷ 116 ∷ 114 ∷ 97 ∷ 110 ∷ 115 ∷ 99 ∷ 114 ∷ 105 ∷ 112 ∷ 116 ∷ []

abbrev dsi_session_key : List ℕ
dsi_session_key =
    83 ∷ 109 ∷ 97 ∷ 114 ∷ 116 ∷ 77 ∷ 105 ∷ 99 ∷ 45 ∷ 67 ∷ 80 ∷ 97 ∷ 99 ∷ 101 ∷ 45 ∷ 118 ∷ 49 ∷ 45
    ∷ 115 ∷ 101 ∷ 115 ∷ 115 ∷ 105 ∷ 111 ∷ 110 ∷ 107 ∷ 101 ∷ 121 ∷ []

abbrev dsi_auth : List ℕ
dsi_auth =
    83 ∷ 109 ∷ 97 ∷ 114 ∷ 116 ∷ 77 ∷ 105 ∷ 99 ∷ 45 ∷ 67 ∷ 80 ∷ 97 ∷ 99 ∷ 101 ∷ 45 ∷ 118 ∷ 49 ∷ 45
    ∷ 97 ∷ 117 ∷ 116 ∷ 104 ∷ []

-- An array of 32 bytes as it starts, or as sodium_memzero leaves it.
abbrev pub zeros : List ℕ
zeros = replicate 32 0

abbrev pub by_role : PairingRole → List ℕ → List ℕ → List ℕ
by_role initiator own other = own
by_role responder own other = other

-- `buildTranscript`.
unfoldable pub build_transcript : PairingExchange → List ℕ
build_transcript x =
    prefixed dsi_transcript
    ++ (prefixed (1 ∷ 0 ∷ 0 ∷ 0 ∷ [])
        ++ (prefixed x.session_id
            ++ (prefixed (by_role x.role x.self.public_key x.peer_public)
                ++ (prefixed (by_role x.role x.peer_public x.self.public_key)
                    ++ (prefixed (by_role x.role x.our_share x.peer_share)
                        ++ prefixed (by_role x.role x.peer_share x.our_share))))))

-- `authMessage`.
unfoldable pub auth_message : List ℕ → List ℕ → List ℕ
auth_message transcript key = prefixed dsi_auth ++ (prefixed transcript ++ prefixed key)

module _ (group : Group) where
  abbrev pub share_or_zero : Option (List ℕ) → List ℕ
  share_or_zero none = zeros
  share_or_zero (some share) = share

  -- The constructor, for a random scalar.
  unfoldable pub make : DeviceIdentity → PairingRole → List ℕ → List ℕ → List ℕ → PairingExchange
  make self role session_id code scalar =
      let generator =
        group.generator_of (prefixed dsi_generator ++ (prefixed code ++ prefixed session_id)) in
      record {
        self = self;
        role = role;
        session_id = session_id;
        peer_public = zeros;
        generator = generator;
        our_share = share_or_zero (group.times scalar generator);
        peer_share = zeros;
        scalar = scalar;
        session_key = zeros;
        transcript = [];
        derived = false;
      }

  -- `onPeer` once the scalar multiplication has or has not succeeded.
  derive : Option (List ℕ) → PairingExchange → PairingError × PairingExchange
  derive none x = (scalar_mult_failed, x)
  derive (some shared) x =
      let t = build_transcript x in
      (
        ok,
        record x {
          transcript = t;
          session_key = group.hash dsi_session_key (shared ++ t);
          scalar = zeros;
          derived = true;
        },
      )

  unfoldable pub on_peer : List ℕ → List ℕ → PairingExchange → PairingError × PairingExchange
  unfolding derive
  on_peer peer_public peer_share x =
      if x.derived
      then (wrong_state, x)
      else if group.is_zero peer_share
      then (invalid_peer_element, x)
      else if not (group.is_valid_point peer_share)
      then (invalid_peer_element, x)
      else derive (group.times x.scalar peer_share)
          (record x { peer_public = peer_public; peer_share = peer_share })

  unfoldable pub auth_signature : PairingExchange → List ℕ
  auth_signature x =
      if not x.derived
      then replicate 64 0
      else group.sign x.self.secret_key (auth_message x.transcript x.session_key)

  unfoldable pub verify_peer_auth : List ℕ → PairingExchange → PairingError
  verify_peer_auth sig x =
      if not x.derived
      then not_ready
      else if group.verify x.peer_public (auth_message x.transcript x.session_key) sig
      then ok
      else bad_signature
