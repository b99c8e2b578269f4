-- ===== src/Protocol/Codec/Accepts.antt =====
-- codec.cpp: which texts are accepted, and as what.
use smartmic_windows.Prelude.{◌≤◌, ◌≡◌, true, some}
use smartmic_windows.Protocol.Codec.{Json, Message, max_message_bytes}
use smartmic_windows.Protocol.Codec.RoundTrip.{Holds}

module _ (json : Json) where
  -- What `decode` takes for a message: a text within the cap that parses to an object which holds the
  -- message.
  pub record Accepted (text : json.T) (m : Message json) : Type 0 where
    pub short : json.size text ≤ max_message_bytes
    pub value : json.J
    pub parsed : json.parse text ≡ some value
    pub object : json.is_object value ≡ true
    pub holds : Holds json value m
