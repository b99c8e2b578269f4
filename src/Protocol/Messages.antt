-- ===== src/Protocol/Messages.antt =====
-- shared/protocol/src/message.cpp and message.h: control messages and the names of their types. A
-- text is the list of its characters' codes.
use Prim.Native.Char.{code}
use Prim.Native.String.{String}
use smartmic_windows.Prelude.{
  ℕ, ◌≡◌, refl, sym, ap, ◌∙◌, true, Bool-cases, inl, inr, arith, List, [], ◌∷◌, Option, none, some,
  if◌then◌else◌,
}
use smartmic_windows.Security.Offers.{same_text}

-- The codes of a literal.
abbrev pub codes : String → List ℕ
codes String.[] = []
codes (String.◌∷◌ c s) = code c ∷ codes s

abbrev pub protocol_version : ℕ
protocol_version = 1

abbrev pub minimum_accepted_version : ℕ
minimum_accepted_version = 1

pub data MsgType : Type 0 where
  hello auth capabilities ping pong : MsgType
  start_ptt ptt_preparing ptt_ready stop_ptt ptt_stopped : MsgType
  set_mode set_local_source get_status status error : MsgType

-- `toString` of a message type.
abbrev pub to_string : MsgType → List ℕ
to_string hello = codes "HELLO"
to_string auth = codes "AUTH"
to_string capabilities = codes "CAPABILITIES"
to_string ping = codes "PING"
to_string pong = codes "PONG"
to_string start_ptt = codes "START_PTT"
to_string ptt_preparing = codes "PTT_PREPARING"
to_string ptt_ready = codes "PTT_READY"
to_string stop_ptt = codes "STOP_PTT"
to_string ptt_stopped = codes "PTT_STOPPED"
to_string set_mode = codes "SET_MODE"
to_string set_local_source = codes "SET_LOCAL_SOURCE"
to_string get_status = codes "GET_STATUS"
to_string status = codes "STATUS"
to_string error = codes "ERROR"

-- `kNames`, in its order.
abbrev pub names : List MsgType
names =
    hello ∷ auth ∷ capabilities ∷ ping ∷ pong ∷ start_ptt ∷ ptt_preparing ∷ ptt_ready ∷ stop_ptt
    ∷ ptt_stopped ∷ set_mode ∷ set_local_source ∷ get_status ∷ status ∷ error ∷ []

abbrev pub search : List MsgType → List ℕ → Option MsgType
search [] s = none
search (t ∷ ts) s = let rest = search ts s in if same_text (to_string t) s then some t else rest

-- `msgTypeFromString`
unfoldable pub msg_type_from_string : List ℕ → Option MsgType
msg_type_from_string s = search names s

-- Every type is read back from its name.
pub msg_type_from_string-to_string : (t : MsgType) → msg_type_from_string (to_string t) ≡ some t
unfolding msg_type_from_string
msg_type_from_string-to_string hello = refl
msg_type_from_string-to_string auth = refl
msg_type_from_string-to_string capabilities = refl
msg_type_from_string-to_string ping = refl
msg_type_from_string-to_string pong = refl
msg_type_from_string-to_string start_ptt = refl
msg_type_from_string-to_string ptt_preparing = refl
msg_type_from_string-to_string ptt_ready = refl
msg_type_from_string-to_string stop_ptt = refl
msg_type_from_string-to_string ptt_stopped = refl
msg_type_from_string-to_string set_mode = refl
msg_type_from_string-to_string set_local_source = refl
msg_type_from_string-to_string get_status = refl
msg_type_from_string-to_string status = refl
msg_type_from_string-to_string error = refl

same_text-same : (xs ys : List ℕ) → same_text xs ys ≡ true → xs ≡ ys
same_text-same [] [] h = refl
same_text-same [] (y ∷ ys) h = ground arith
same_text-same (x ∷ xs) [] h = ground arith
same_text-same (x ∷ xs) (y ∷ ys) h = ground (arith, same_text-same xs ys)

search-inv : (ts : List MsgType) (s : List ℕ) (t : MsgType) → search ts s ≡ some t → s ≡ to_string t
search-inv [] s t h = ground arith
search-inv (u ∷ ts) s t h = elim (Bool-cases (same_text (to_string u) s)) [
  | inl same ↦
      let first : some u ≡ some t = sym (rw same refl) ∙ h in
      let it : u ≡ t = cc first in
      sym (same_text-same (to_string u) s same) ∙ ap (λ v. to_string v) it
  | inr other ↦ search-inv ts s t (ground (arith, other, h))
]

-- A text that is read as a type is its name.
pub msg_type_from_string-inv :
    (s : List ℕ) (t : MsgType) → msg_type_from_string s ≡ some t → s ≡ to_string t
unfolding msg_type_from_string
msg_type_from_string-inv s t h = search-inv names s t h
