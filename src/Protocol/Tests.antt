-- ===== src/Protocol/Tests.antt =====
-- The replay window and the codec on concrete data.
use smartmic_windows.Prelude.{ℕ, ◌≡◌, refl, List, [], ◌∷◌, some, ltb, if◌then◌else◌, arith}
use smartmic_windows.Protocol.Messages.{MsgType, codes, msg_type_from_string}
use smartmic_windows.Protocol.Codec.{
  Message, DecodeError, ok, refused, decode, encode, decode_object, take, check_version, check_type,
  max_message_bytes,
}
use smartmic_windows.Protocol.Codec.Values.{
  Value, values, values-laws, object, fields, field, number, text, no_fields,
}
use smartmic_windows.Protocol.Codec.RoundTrip
use smartmic_windows.Protocol.Codec.RoundTrip.{decode-encode}
use smartmic_windows.Protocol.ReplayWindow.{accept, reset}
use smartmic_windows.Protocol.ReplayWindow.History.{
  Tracks, NoRepeat, accepted, is_fresh, accept_refines, never_twice, reset-Tracks,
}

-- Out of order within the window, too old, and repeated.
accepted_run : accepted 4 (5 ∷ 3 ∷ 5 ∷ 9 ∷ 3 ∷ 8 ∷ 8 ∷ []) reset [] ≡ 8 ∷ 9 ∷ 3 ∷ 5 ∷ []
unfolding accept
accepted_run = refl

accept_refines_example :
    ((accept 4 reset 7).0 ≡ is_fresh 4 [] reset 7)
    × Tracks 4 (if (accept 4 reset 7).0 then 7 ∷ [] else []) (accept 4 reset 7).1
accept_refines_example = accept_refines 4 [] reset 7 (reset-Tracks 4)

never_twice_example : NoRepeat (accepted 4 (5 ∷ 3 ∷ 5 ∷ 9 ∷ 3 ∷ 8 ∷ []) reset [])
never_twice_example = never_twice 4 (5 ∷ 3 ∷ 5 ∷ 9 ∷ 3 ∷ 8 ∷ [])

-- A request for the phone-only mode.
abbrev a_message : Message values
a_message = record {
  protocol_version = 1;
  session_id = codes "S1";
  message_id = codes "M1";
  seq = 7;
  timestamp = 1700000000000;
  device_id = codes "phone";
  msg_type = MsgType.set_mode;
  payload = object (field (codes "mode") (text (codes "PhoneOnly")) no_fields);
}

a_message-IsValid : RoundTrip.IsValid values a_message
a_message-IsValid = record {
  current = refl;
  seq_word = omega arith;
  timestamp_word = omega arith;
  session_utf8 = refl;
  message_utf8 = refl;
  device_utf8 = refl;
  payload_object = refl;
  payload_writable = refl;
}

-- What the message is written as.
abbrev a_text : List ℕ → Value
a_text type_name = object (
    fields (
      (codes "protocolVersion", number 1)
      ∷ (codes "sessionId", text (codes "S1"))
      ∷ (codes "messageId", text (codes "M1"))
      ∷ (codes "seq", number 7)
      ∷ (codes "timestamp", number 1700000000000)
      ∷ (codes "deviceId", text (codes "phone"))
      ∷ (codes "type", text type_name)
      ∷ (codes "payload", a_message.payload)
      ∷ []))

decode-encode_example :
    (t : Value) × (encode values a_message ≡ some t)
    × (decode values t ≡ (
        if ltb max_message_bytes (values.size t)
        then refused DecodeError.too_large
        else ok a_message))
decode-encode_example = decode-encode values values-laws a_message a_message-IsValid

taken : decode values (a_text (codes "SET_MODE")) ≡ ok a_message
unfolding decode decode_object take check_version check_type msg_type_from_string
taken = refl

-- An unknown type is refused.
unknown_type : decode values (a_text (codes "SET_MOOD")) ≡ refused DecodeError.unknown_type
unfolding decode decode_object take check_version check_type msg_type_from_string
unknown_type = refl
