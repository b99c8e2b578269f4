-- ===== src/Security/Link.antt =====
-- `buildPairingUri` and `parsePairingUri` of shared/security/src/pairing.cpp, with what they use of the
-- C library: `%u` and `%llu`, `strtoul`, whose width is that of `unsigned long`, and `strtoull`.
pub mod RoundTrip
use smartmic_windows.Prelude.{
  ℕ, zero, suc, ◌+◌, ◌-◌, ◌*◌, ◌^◌, ◌%◌, ◌/◌, Bool, true, false, ◌&&◌, ◌||◌, not, List, [], ◌∷◌,
  ◌++◌, Option, none, some, length, take, ltb, leb, ◌==◌, if◌then◌else◌,
}
use smartmic_windows.Security.Offers.{PairingOffer, same_text}
use smartmic_windows.Protocol.Messages.{codes}

pub record PairingUri : Type 0 where
  pub version : ℕ
  pub host : List ℕ
  pub port : ℕ
  pub pc_device_id : List ℕ
  pub fingerprint : List ℕ
  pub session_id : List ℕ
  pub code : List ℕ
  pub expires_at_ms : ℕ

-- A decimal number, with room for as many digits as the fuel says.
unfoldable pub decimal : ℕ → ℕ → List ℕ
decimal zero n = []
decimal (suc fuel) n =
    let front = decimal fuel (n / 10) in (if ltb n 10 then [] else front) ++ ((48 + n % 10) ∷ [])

-- `c_str`: a text as the C library sees it.
abbrev pub c_str : List ℕ → List ℕ
c_str [] = []
c_str (c ∷ s) = let rest = c_str s in if c == 0 then [] else c ∷ rest

-- The link before it is put into its 512 bytes.
unfoldable pub whole_uri : PairingUri → List ℕ
whole_uri u =
    codes "smartmic://pair?v=1&host="
    ++ (c_str u.host
        ++ (codes "&port="
            ++ (decimal 10 u.port
                ++ (codes "&pcid="
                    ++ (c_str u.pc_device_id
                        ++ (codes "&fp="
                            ++ (c_str u.fingerprint
                                ++ (codes "&sid="
                                    ++ (c_str u.session_id
                                        ++ (codes "&code="
                                            ++ (c_str u.code
                                                ++ (codes "&exp="
                                                    ++ decimal 20 u.expires_at_ms))))))))))))

-- What goes into a link: the identity's `deviceId` and `fingerprint`, the offer, and where the PC is.
abbrev pub uri_of : List ℕ → List ℕ → PairingOffer → List ℕ → ℕ → PairingUri
uri_of device_id fingerprint offer host port = record {
  version = 1;
  host = host;
  port = port;
  pc_device_id = device_id;
  fingerprint = fingerprint;
  session_id = offer.session_id;
  code = offer.code;
  expires_at_ms = offer.expires_at_ms;
}

-- `buildPairingUri`
unfoldable pub build_pairing_uri : List ℕ → List ℕ → PairingOffer → List ℕ → ℕ → List ℕ
build_pairing_uri device_id fingerprint offer host port =
    take 511 (whole_uri (uri_of device_id fingerprint offer host port))

abbrev is_digit : ℕ → Bool
is_digit c = leb 48 c && leb c 57

abbrev is_space : ℕ → Bool
is_space c = c == 32 || (leb 9 c && leb c 13)

-- The number that the digits in front stand for, behind the digits already read.
abbrev pub digits_value : ℕ → List ℕ → ℕ
digits_value acc [] = acc
digits_value acc (c ∷ s) =
    let rest = digits_value (acc * 10 + (c - 48)) s in if is_digit c then rest else acc

-- `strtoul` and `strtoull` of `w` bits, base 10, behind the sign and from it.
abbrev pub saturated : ℕ → ℕ → ℕ
saturated w v = if leb (2 ^ w) v then 2 ^ w - 1 else v

abbrev negated : ℕ → ℕ → ℕ
negated w v = if leb (2 ^ w) v then 2 ^ w - 1 else (2 ^ w - v) % 2 ^ w

abbrev pub signed_value : ℕ → List ℕ → ℕ
signed_value w [] = 0
signed_value w (c ∷ s) =
    if c == 45
    then negated w (digits_value 0 s)
    else if c == 43
    then saturated w (digits_value 0 s)
    else saturated w (digits_value 0 (c ∷ s))

abbrev pub str_to_unsigned : ℕ → List ℕ → ℕ
str_to_unsigned w [] = 0
str_to_unsigned w (c ∷ s) =
    let rest = str_to_unsigned w s in if is_space c then rest else signed_value w (c ∷ s)

-- The text behind a prefix.
abbrev pub behind : List ℕ → List ℕ → Option (List ℕ)
behind [] s = some s
behind (p ∷ ps) [] = none
behind (p ∷ ps) (c ∷ s) = let rest = behind ps s in if p == c then rest else none

abbrev pub onto_first : ℕ → List (List ℕ) → List (List ℕ)
onto_first c [] = (c ∷ []) ∷ []
onto_first c (s ∷ ss) = (c ∷ s) ∷ ss

-- The segments between ampersands, which the loop goes through in order.
abbrev pub segments : List ℕ → List (List ℕ)
segments [] = [] ∷ []
segments (c ∷ s) = let rest = segments s in if c == 38 then [] ∷ rest else onto_first c rest

abbrev onto_key : ℕ → Option (List ℕ × List ℕ) → Option (List ℕ × List ℕ)
onto_key c none = none
onto_key c (some (k, v)) = some (c ∷ k, v)

-- Key and value around the first equals sign.
abbrev pub key_value : List ℕ → Option (List ℕ × List ℕ)
key_value [] = none
key_value (c ∷ s) = let rest = key_value s in if c == 61 then some ([], s) else onto_key c rest

abbrev pub set_field : ℕ → Option (List ℕ × List ℕ) → PairingUri → PairingUri
set_field long_bits none u = u
set_field long_bits (some (k, v)) u =
    if same_text k (codes "v")
    then record u { version = str_to_unsigned long_bits v % 2 ^ 32 }
    else if same_text k (codes "host")
    then record u { host = v }
    else if same_text k (codes "port")
    then record u { port = str_to_unsigned long_bits v % 2 ^ 16 }
    else if same_text k (codes "pcid")
    then record u { pc_device_id = v }
    else if same_text k (codes "fp")
    then record u { fingerprint = v }
    else if same_text k (codes "sid")
    then record u { session_id = v }
    else if same_text k (codes "code")
    then record u { code = v }
    else if same_text k (codes "exp")
    then record u { expires_at_ms = str_to_unsigned 64 v }
    else u

abbrev pub set_fields : ℕ → List (List ℕ) → PairingUri → PairingUri
set_fields long_bits [] u = u
set_fields long_bits (s ∷ ss) u = set_fields long_bits ss (set_field long_bits (key_value s) u)

abbrev pub blank_uri : PairingUri
blank_uri = record {
  version = 0;
  host = [];
  port = 0;
  pc_device_id = [];
  fingerprint = [];
  session_id = [];
  code = [];
  expires_at_ms = 0;
}

unfoldable pub is_unusable : PairingUri → Bool
is_unusable u =
    not (u.version == 1)
    || length u.host == 0
    || u.port == 0
    || length u.session_id == 0
    || not (length u.code == 6)
    || length u.pc_device_id == 0

abbrev pub checked : PairingUri → Option PairingUri
checked u = if is_unusable u then none else some u

-- `parsePairingUri`
unfoldable pub parse_pairing_uri : ℕ → List ℕ → Option PairingUri
parse_pairing_uri long_bits uri = elim (behind (codes "smartmic://pair?") uri) [
  | none ↦ none
  | some rest ↦ checked (set_fields long_bits (segments rest) blank_uri)
]
