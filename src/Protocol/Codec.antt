-- ===== src/Protocol/Codec.antt =====
-- shared/protocol/src/codec.cpp: control messages to JSON and back. The JSON library is a parameter.
pub mod RoundTrip
pub mod Accepts
pub mod Values
use smartmic_windows.Prelude.{
  ℕ, ◌*◌, ◌^◌, ◌<◌, ◌≡◌, Bool, true, false, ◌&&◌, ◌||◌, not, List, [], ◌∷◌, ◌++◌, All, Option, none,
  some, ltb, if◌then◌else◌,
}
use smartmic_windows.Security.Offers.{same_text}
use smartmic_windows.Protocol.Messages.{
  MsgType, codes, to_string, msg_type_from_string, protocol_version, minimum_accepted_version,
}

abbrev pub max_message_bytes : ℕ
max_message_bytes = 8 * 1024

pub data DecodeError : Type 0 where
  not_json not_an_object missing_field bad_field_type unknown_type unsupported_version : DecodeError
  too_large : DecodeError

-- A `DecodeResult`, or what a step before it gives.
pub data Result (A : Type 0) : Type 0 where
  ok : A → Result A
  refused : DecodeError → Result A

infixl 5 ◌>>=◌
abbrev pub ◌>>=◌ : {A B : Type 0} → Result A → (A → Result B) → Result B
ok a >>= f = f a
refused e >>= f = refused e

-- The first entry of an object under a key.
abbrev pub lookup : {J : Type 0} → List ℕ → List (List ℕ × J) → Option J
lookup k [] = none
lookup k ((k', v) ∷ fields) = let rest = lookup k fields in if same_text k k' then some v else rest

-- What the codec uses of nlohmann::json. `T` is the type of the texts that it writes and reads; values
-- of `J` are equal where `==` of the library says so.
pub record Json : Type 1 where
  pub J : Type 0
  pub T : Type 0
  pub size : T → ℕ
  pub parse : T → Option J
  -- None is the exception of a text that is not UTF-8.
  pub dump : J → Option T
  pub is_object : J → Bool
  pub is_empty : J → Bool
  pub find : List ℕ → J → Option J
  pub get_uint32 : J → Option ℕ
  pub get_uint64 : J → Option ℕ
  pub get_string : J → Option (List ℕ)
  pub number : ℕ → J
  pub text : List ℕ → J
  pub object : List (List ℕ × J) → J
  pub is_utf8 : List ℕ → Bool
  -- Whether a value holds no binary value, all its texts and keys are UTF-8 and all its numbers are
  -- finite, so that `dump` throws nothing and writes none of them as null or as something else.
  pub is_writable : J → Bool

-- A field of an object whose key is UTF-8 and whose value can be written.
abbrev pub WritableField : (json : Json) → List ℕ × json.J → Type 0
WritableField json (k, v) = (json.is_utf8 k ≡ true) × (json.is_writable v ≡ true)

-- Only characters of ASCII.
abbrev pub all_ascii : List ℕ → Bool
all_ascii [] = true
all_ascii (c ∷ s) = ltb c 128 && all_ascii s

-- What its documentation promises of the values that the codec writes.
pub record JsonLaws (json : Json) : Type 0 where
  pub parse-dump :
      (v : json.J)
      → json.is_writable v ≡ true
      → (t : json.T) × (json.dump v ≡ some t) × (json.parse t ≡ some v)
  pub writable_number : (n : ℕ) → json.is_writable (json.number n) ≡ true
  pub writable_text : (s : List ℕ) → json.is_utf8 s ≡ true → json.is_writable (json.text s) ≡ true
  pub writable_object :
      (fs : List (List ℕ × json.J))
      → All (WritableField json) fs
      → json.is_writable (json.object fs) ≡ true
  pub ascii_is_utf8 : (s : List ℕ) → all_ascii s ≡ true → json.is_utf8 s ≡ true
  pub object-is_object : (fs : List (List ℕ × json.J)) → json.is_object (json.object fs) ≡ true
  pub find-object :
      (k : List ℕ) (fs : List (List ℕ × json.J)) → json.find k (json.object fs) ≡ lookup k fs
  pub get_uint32-number : (n : ℕ) → n < 2 ^ 32 → json.get_uint32 (json.number n) ≡ some n
  pub get_uint64-number : (n : ℕ) → n < 2 ^ 64 → json.get_uint64 (json.number n) ≡ some n
  pub get_string-text : (s : List ℕ) → json.get_string (json.text s) ≡ some s
  pub empty_object :
      (j : json.J) → json.is_object j ≡ true → json.is_empty j ≡ true → j ≡ json.object []

module _ (json : Json) where
  pub record Message : Type 0 where
    pub protocol_version : ℕ
    pub session_id : List ℕ
    pub message_id : List ℕ
    pub seq : ℕ
    pub timestamp : ℕ
    pub device_id : List ℕ
    pub msg_type : MsgType
    pub payload : json.J

  abbrev pub header_fields : Message → List (List ℕ × json.J)
  header_fields m =
      (codes "protocolVersion", json.number m.protocol_version)
      ∷ (codes "sessionId", json.text m.session_id)
      ∷ (codes "messageId", json.text m.message_id)
      ∷ (codes "seq", json.number m.seq)
      ∷ (codes "timestamp", json.number m.timestamp)
      ∷ (codes "deviceId", json.text m.device_id)
      ∷ (codes "type", json.text (to_string m.msg_type))
      ∷ []

  -- The object that `encode` dumps.
  unfoldable pub fields_of : Message → List (List ℕ × json.J)
  fields_of m =
      if json.is_empty m.payload
      then header_fields m
      else header_fields m ++ ((codes "payload", m.payload) ∷ [])

  -- `encode`, or none where it throws.
  unfoldable pub encode : Message → Option json.T
  unfolding fields_of
  encode m = json.dump (json.object (fields_of m))

  -- `take`, of a field that is read by `get`.
  abbrev pub typed : {A : Type 0} → Option A → Result A
  typed none = refused DecodeError.bad_field_type
  typed (some a) = ok a

  unfoldable pub take : {A : Type 0} → (json.J → Option A) → List ℕ → json.J → Result A
  take get k j = elim (json.find k j) [
    | none ↦ refused DecodeError.missing_field
    | some v ↦ typed (get v)
  ]

  -- The payload under `payload`, or an empty object.
  abbrev pub payload_of : Option json.J → Result json.J
  payload_of none = ok (json.object [])
  payload_of (some v) = if not (json.is_object v) then refused DecodeError.bad_field_type else ok v

  -- The checks of `decode` on a message whose type is a name: version, name, payload.
  unfoldable pub check_type : Option MsgType → Result MsgType
  check_type none = refused DecodeError.unknown_type
  check_type (some t) = ok t

  unfoldable pub check_version : ℕ → Result ℕ
  check_version v =
      if ltb v minimum_accepted_version || ltb protocol_version v
      then refused DecodeError.unsupported_version
      else ok v

  -- `decode` of an object.
  unfoldable pub decode_object : json.J → Result Message
  unfolding take check_type check_version
  decode_object j = do
    version ← take json.get_uint32 (codes "protocolVersion") j
    session_id ← take json.get_string (codes "sessionId") j
    message_id ← take json.get_string (codes "messageId") j
    seq ← take json.get_uint64 (codes "seq") j
    timestamp ← take json.get_uint64 (codes "timestamp") j
    device_id ← take json.get_string (codes "deviceId") j
    type_name ← take json.get_string (codes "type") j
    accepted ← check_version version
    msg_type ← check_type (msg_type_from_string type_name)
    payload ← payload_of (json.find (codes "payload") j)
    ok (record {
      protocol_version = accepted;
      session_id = session_id;
      message_id = message_id;
      seq = seq;
      timestamp = timestamp;
      device_id = device_id;
      msg_type = msg_type;
      payload = payload;
    })

  unfoldable pub decode : json.T → Result Message
  unfolding decode_object
  decode text =
      if ltb max_message_bytes (json.size text)
      then refused DecodeError.too_large
      else elim (json.parse text) [
        | none ↦ refused DecodeError.not_json
        | some j ↦
            if not (json.is_object j) then refused DecodeError.not_an_object else decode_object j
      ]
