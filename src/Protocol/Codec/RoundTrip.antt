-- ===== src/Protocol/Codec/RoundTrip.antt =====
-- codec.cpp: what was encoded is decoded to the same message.
use smartmic_windows.Prelude.{
  if◌then◌else◌, ℕ, ◌^◌, ◌<◌, ◌≡◌, refl, sym, ap, ◌∙◌, subst, true, List, [], ◌∷◌, All, ◌⊎◌, Option,
  none, some, arith, ltb, Bool-cases, inl, inr, ◌++◌,
}
use smartmic_windows.Protocol.Messages.{
  MsgType, codes, to_string, msg_type_from_string-to_string, protocol_version,
}
use smartmic_windows.Protocol.Codec.{
  Json, JsonLaws, Message, ok, refused, DecodeError, lookup, take, typed, payload_of, check_type,
  check_version, WritableField, all_ascii, header_fields, fields_of, encode, decode_object, decode,
  max_message_bytes,
}

module _ (json : Json) where
  pub take-found :
      {A : Type 0} (get : json.J → Option A) (k : List ℕ) (j : json.J) {v : json.J} {a : A}
      → json.find k j ≡ some v
      → get v ≡ some a
      → take json get k j ≡ ok a
  unfolding take
  take-found get k j found read =
      ap (λ o. elim o [ none ↦ refused DecodeError.missing_field | some v ↦ typed json (get v) ])
        found
      ∙ ap (typed json) read

  -- The object has an entry under the key which reads as the value.
  pub record Reads {A : Type 0} (get : json.J → Option A) (k : List ℕ) (j : json.J) (a : A)
      : Type 0 where
    pub entry : json.J
    pub found : json.find k j ≡ some entry
    pub read : get entry ≡ some a

  -- What an object holds where it stands for a message.
  pub record Holds (j : json.J) (m : Message json) : Type 0 where
    pub version : Reads json.get_uint32 (codes "protocolVersion") j m.protocol_version
    pub session : Reads json.get_string (codes "sessionId") j m.session_id
    pub message : Reads json.get_string (codes "messageId") j m.message_id
    pub number : Reads json.get_uint64 (codes "seq") j m.seq
    pub time : Reads json.get_uint64 (codes "timestamp") j m.timestamp
    pub device : Reads json.get_string (codes "deviceId") j m.device_id
    pub type : Reads json.get_string (codes "type") j (to_string m.msg_type)
    pub current : m.protocol_version ≡ protocol_version
    pub payload :
        ((json.find (codes "payload") j ≡ none) × (m.payload ≡ json.object []))
        ⊎ ((json.find (codes "payload") j ≡ some m.payload) × (json.is_object m.payload ≡ true))

  take-Reads :
      {A : Type 0} (get : json.J → Option A) (k : List ℕ) (j : json.J) {a : A}
      → Reads get k j a
      → take json get k j ≡ ok a
  take-Reads get k j r = take-found get k j r.found r.read

  payload_of-Holds :
      (j : json.J) (m : Message json)
      → Holds j m
      → payload_of json (json.find (codes "payload") j) ≡ ok m.payload
  payload_of-Holds j m h = elim h.payload [
    | inl (missing, empty) ↦ ap (payload_of json) missing ∙ ap ok (sym empty)
    | inr (found, object) ↦ ap (payload_of json) found ∙ rw object refl
  ]

  pub decode_object-Holds :
      (j : json.J) (m : Message json) → Holds j m → decode_object json j ≡ ok m
  unfolding decode_object check_type check_version
  decode_object-Holds j m h =
      rw
        (
          take-Reads json.get_uint32 (codes "protocolVersion") j h.version,
          take-Reads json.get_string (codes "sessionId") j h.session,
          take-Reads json.get_string (codes "messageId") j h.message,
          take-Reads json.get_uint64 (codes "seq") j h.number,
          take-Reads json.get_uint64 (codes "timestamp") j h.time,
          take-Reads json.get_string (codes "deviceId") j h.device,
          take-Reads json.get_string (codes "type") j h.type,
          h.current,
          msg_type_from_string-to_string m.msg_type,
          payload_of-Holds j m h,
        )
        refl

  -- A message that `encode` can carry: the current version, numbers that fit their types, texts that are
  -- UTF-8, and a payload that is an object and can be written.
  pub record IsValid (m : Message json) : Type 0 where
    pub current : m.protocol_version ≡ protocol_version
    pub seq_word : m.seq < 2 ^ 64
    pub timestamp_word : m.timestamp < 2 ^ 64
    pub session_utf8 : json.is_utf8 m.session_id ≡ true
    pub message_utf8 : json.is_utf8 m.message_id ≡ true
    pub device_utf8 : json.is_utf8 m.device_id ≡ true
    pub payload_object : json.is_object m.payload ≡ true
    pub payload_writable : json.is_writable m.payload ≡ true

  module _ (laws : JsonLaws json) where
    -- Every field but the payload.
    fields-Holds :
        (fs : List (List ℕ × json.J)) (m : Message json)
        → IsValid m
        → lookup (codes "protocolVersion") fs ≡ some (json.number m.protocol_version)
        → lookup (codes "sessionId") fs ≡ some (json.text m.session_id)
        → lookup (codes "messageId") fs ≡ some (json.text m.message_id)
        → lookup (codes "seq") fs ≡ some (json.number m.seq)
        → lookup (codes "timestamp") fs ≡ some (json.number m.timestamp)
        → lookup (codes "deviceId") fs ≡ some (json.text m.device_id)
        → lookup (codes "type") fs ≡ some (json.text (to_string m.msg_type))
        → ((lookup (codes "payload") fs ≡ none) × (m.payload ≡ json.object []))
          ⊎ ((lookup (codes "payload") fs ≡ some m.payload) × (json.is_object m.payload ≡ true))
        → Holds (json.object fs) m
    fields-Holds fs m v version session message number time device type body = record {
      version =
          at json.get_uint32 (codes "protocolVersion") version
            (laws.get_uint32-number m.protocol_version (omega (arith, v.current)));
      session = at json.get_string (codes "sessionId") session (laws.get_string-text m.session_id);
      message = at json.get_string (codes "messageId") message (laws.get_string-text m.message_id);
      number = at json.get_uint64 (codes "seq") number (laws.get_uint64-number m.seq v.seq_word);
      time =
          at json.get_uint64 (codes "timestamp") time
            (laws.get_uint64-number m.timestamp v.timestamp_word);
      device = at json.get_string (codes "deviceId") device (laws.get_string-text m.device_id);
      type = at json.get_string (codes "type") type (laws.get_string-text (to_string m.msg_type));
      current = v.current;
      payload = elim body [
        | inl (missing, empty) ↦ inl (laws.find-object (codes "payload") fs ∙ missing, empty)
        | inr (found, object) ↦ inr (laws.find-object (codes "payload") fs ∙ found, object)
      ];
    }
      where
        at :
            {A : Type 0} (get : json.J → Option A) (k : List ℕ) {x : json.J} {a : A}
            → lookup k fs ≡ some x
            → get x ≡ some a
            → Reads get k (json.object fs) a
        at get k {x} there read = record {
          entry = x;
          found = laws.find-object k fs ∙ there;
          read = read;
        }

    fields_of-Holds : (m : Message json) → IsValid m → Holds (json.object (fields_of json m)) m
    fields_of-Holds m v = elim (Bool-cases (json.is_empty m.payload)) [
      | inl empty ↦
          let short : fields_of json m ≡ header_fields json m = unfold fields_of in rw empty refl in
          let body = inl (refl, laws.empty_object m.payload v.payload_object empty) in
          subst (λ fs. Holds (json.object fs) m) (sym short)
            (fields-Holds (header_fields json m) m v refl refl refl refl refl refl refl body)
      | inr full ↦
          let fs = header_fields json m ++ ((codes "payload", m.payload) ∷ []) in
          let long : fields_of json m ≡ fs = unfold fields_of in rw full refl in
          let body = inr (refl, v.payload_object) in
          subst (λ fs. Holds (json.object fs) m) (sym long)
            (fields-Holds fs m v refl refl refl refl refl refl refl body)
    ]

    to_string-ascii : (t : MsgType) → all_ascii (to_string t) ≡ true
    to_string-ascii t = ground arith

    header_fields-writable :
        (m : Message json) (rest : List (List ℕ × json.J))
        → IsValid m
        → All (WritableField json) rest
        → All (WritableField json) (header_fields json m ++ rest)
    header_fields-writable m rest v more =
        let key = laws.ascii_is_utf8 in
        let type =
          laws.writable_text (to_string m.msg_type)
            (key (to_string m.msg_type) (to_string-ascii m.msg_type)) in
        (
          (key (codes "protocolVersion") refl, laws.writable_number m.protocol_version),
          (
            (key (codes "sessionId") refl, laws.writable_text m.session_id v.session_utf8),
            (
              (key (codes "messageId") refl, laws.writable_text m.message_id v.message_utf8),
              (
                (key (codes "seq") refl, laws.writable_number m.seq),
                (
                  (key (codes "timestamp") refl, laws.writable_number m.timestamp),
                  (
                    (key (codes "deviceId") refl, laws.writable_text m.device_id v.device_utf8),
                    ((key (codes "type") refl, type), more),
                  ),
                ),
              ),
            ),
          ),
        )

    fields_of-writable :
        (m : Message json) → IsValid m → json.is_writable (json.object (fields_of json m)) ≡ true
    unfolding fields_of
    fields_of-writable m v = elim (Bool-cases (json.is_empty m.payload)) [
      | inl empty ↦
          rw empty (laws.writable_object (header_fields json m) (header_fields-writable m [] v tt))
      | inr full ↦
          let rest = (codes "payload", m.payload) ∷ [] in
          let body : All (WritableField json) rest =
            ((laws.ascii_is_utf8 (codes "payload") refl, v.payload_writable), tt) in
          rw full (
            laws.writable_object (header_fields json m ++ rest)
              (header_fields-writable m rest v body))
    ]

    -- A message of the current version whose numbers fit their types, whose texts are UTF-8 and whose
    -- payload is an object that can be written, an empty one too, is encoded without an exception, and
    -- the text is decoded to the same message, or refused as too large where it exceeds the cap.
    pub decode-encode :
        (m : Message json)
        → IsValid m
        → (t : json.T) × (encode json m ≡ some t)
          × (decode json t ≡ (
              if ltb max_message_bytes (json.size t) then refused DecodeError.too_large else ok m))
    unfolding decode encode
    decode-encode m v =
        let fs = fields_of json m in
        let (t, written, back) = laws.parse-dump (json.object fs) (fields_of-writable m v) in
        let whole = decode_object-Holds (json.object fs) m (fields_of-Holds m v) in
        (t, written, rw back (rw (laws.object-is_object fs) (rw whole refl)))
