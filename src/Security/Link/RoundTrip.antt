-- ===== src/Security/Link/RoundTrip.antt =====
-- pairing.cpp: a link that was built is parsed to what it was built from.
use smartmic_windows.Prelude.{
  ℕ, zero, suc, ◌+◌, ◌-◌, ◌*◌, ◌^◌, ◌%◌, ◌/◌, ◌<◌, ◌≤◌, ◌≡◌, refl, ap, ◌∙◌, Bool, true, false, ◌&&◌,
  List, [], ◌∷◌, ◌++◌, some, arith, length, take, ltb, leb, ◌==◌, if◌then◌else◌, Bool-cases, inl,
  inr, take_all,
}
use smartmic_windows.Protocol.Messages.{codes}
use smartmic_windows.Security.Offers.{PairingOffer}
use smartmic_windows.Security.Link.{
  PairingUri, uri_of, decimal, c_str, whole_uri, build_pairing_uri, digits_value, str_to_unsigned,
  onto_first, segments, set_fields, blank_uri, is_unusable, checked, parse_pairing_uri,
}

-- A text without a character.
abbrev lacks : ℕ → List ℕ → Bool
lacks c [] = true
lacks c (x ∷ xs) = let rest = lacks c xs in if x == c then false else rest

lacks-inv :
    (c x : ℕ) (s : List ℕ) → lacks c (x ∷ s) ≡ true → ((x == c) ≡ false) × (lacks c s ≡ true)
lacks-inv c x s h = (ground arith, ground arith)

c_str-whole : (s : List ℕ) → lacks 0 s ≡ true → c_str s ≡ s
c_str-whole [] h = refl
c_str-whole (x ∷ s) h =
    let (other, more) = lacks-inv 0 x s h in rw other (ap (λ t. x ∷ t) (c_str-whole s more))

segments-last : (s : List ℕ) → lacks 38 s ≡ true → segments s ≡ s ∷ []
segments-last [] h = refl
segments-last (x ∷ s) h =
    let (other, more) = lacks-inv 38 x s h in rw other (ap (onto_first x) (segments-last s more))

segments-next :
    (s : List ℕ)
    → lacks 38 s ≡ true
    → (rest : List ℕ) → segments (s ++ (38 ∷ rest)) ≡ s ∷ segments rest
segments-next [] h rest = refl
segments-next (x ∷ s) h rest =
    let (other, more) = lacks-inv 38 x s h in
    rw other (ap (onto_first x) (segments-next s more rest))

-- Only digits.
abbrev digits : List ℕ → Bool
digits [] = true
digits (x ∷ xs) = leb 48 x && leb x 57 && digits xs

digits_value-snoc :
    (s : List ℕ) (acc d : ℕ)
    → digits s ≡ true
    → d < 10
    → digits_value acc (s ++ ((48 + d) ∷ [])) ≡ digits_value acc s * 10 + d
digits_value-snoc [] acc d h small = ground arith
digits_value-snoc (x ∷ s) acc d h small =
    let rest = digits_value-snoc s (acc * 10 + (x - 48)) d in ground (arith, rest)

digits-snoc : (s : List ℕ) (d : ℕ) → digits s ≡ true → d < 10 → digits (s ++ ((48 + d) ∷ [])) ≡ true
digits-snoc [] d h small = ground arith
digits-snoc (x ∷ s) d h small = let rest = digits-snoc s d in ground (arith, rest)

decimal-digits : (fuel n : ℕ) → digits (decimal fuel n) ≡ true
unfolding decimal
decimal-digits zero n = refl
decimal-digits (suc fuel) n =
    let front = decimal-digits fuel (n / 10) in
    elim (Bool-cases (ltb n 10)) [
      | inl small ↦ rw small (digits-snoc [] (n % 10) refl (omega arith))
      | inr large ↦ rw large (digits-snoc (decimal fuel (n / 10)) (n % 10) front (omega arith))
    ]

digits-lacks : (s : List ℕ) → digits s ≡ true → lacks 38 s ≡ true
digits-lacks [] h = refl
digits-lacks (x ∷ s) h = let rest = digits-lacks s in ground (arith, rest)

-- Where the numbers of so many digits end.
abbrev decimal_bound : ℕ → ℕ
decimal_bound zero = 1
decimal_bound (suc n) = 10 * decimal_bound n

decimal_lem : (fuel n : ℕ) → n < decimal_bound fuel → digits_value 0 (decimal fuel n) ≡ n
unfolding decimal
decimal_lem zero n h = omega arith
decimal_lem (suc fuel) n h =
    let front = decimal-digits fuel (n / 10) in
    let rest = decimal_lem fuel (n / 10) in
    elim (Bool-cases (ltb n 10)) [
      | inl small ↦
          rw small (digits_value-snoc [] 0 (n % 10) refl (omega arith) ∙ ground (arith, small))
      | inr large ↦ rw large (
          digits_value-snoc (decimal fuel (n / 10)) 0 (n % 10) front (omega arith)
          ∙ omega (arith, rest (omega (arith, h))))
    ]

-- `decimal` is not empty and starts with a digit, so nothing is skipped and no sign is read.
str_to_unsigned-digits :
    (w : ℕ) (s : List ℕ)
    → digits s ≡ true
    → digits_value 0 s < 2 ^ w
    → str_to_unsigned w s ≡ digits_value 0 s
str_to_unsigned-digits w [] h small = refl
str_to_unsigned-digits w (x ∷ s) h small = ground (arith, h, small)

-- What a link can carry: texts without ampersands and zeros, none that is needed empty, six digits of
-- code, a port, and 511 characters at most.
pub record IsLinkable (u : PairingUri) : Type 0 where
  pub host_text : (lacks 0 u.host ≡ true) × (lacks 38 u.host ≡ true)
  pub device_text : (lacks 0 u.pc_device_id ≡ true) × (lacks 38 u.pc_device_id ≡ true)
  pub fingerprint_text : (lacks 0 u.fingerprint ≡ true) × (lacks 38 u.fingerprint ≡ true)
  pub session_text : (lacks 0 u.session_id ≡ true) × (lacks 38 u.session_id ≡ true)
  pub code_text : (lacks 0 u.code ≡ true) × (lacks 38 u.code ≡ true)
  pub port_half : u.port < 2 ^ 16
  pub expiry_word : u.expires_at_ms < 2 ^ 64
  pub usable : is_unusable u ≡ false
  pub short : length (whole_uri u) ≤ 511

number-back :
    (w fuel n : ℕ) → n < decimal_bound fuel → n < 2 ^ w → str_to_unsigned w (decimal fuel n) ≡ n
number-back w fuel n room word =
    let value = decimal_lem fuel n room in
    str_to_unsigned-digits w (decimal fuel n) (decimal-digits fuel n) (omega (arith, value, word))
    ∙ value

module _ (long_bits : ℕ) (wide : 2 ^ 16 ≤ 2 ^ long_bits) (device_id fingerprint : List ℕ)
    (offer : PairingOffer) (host : List ℕ) (port : ℕ)
    (ok : IsLinkable (uri_of device_id fingerprint offer host port)) where
  abbrev u : PairingUri
  u = uri_of device_id fingerprint offer host port

  abbrev the_fields : List (List ℕ)
  the_fields =
      codes "v=1"
      ∷ (codes "host=" ++ u.host)
      ∷ (codes "port=" ++ decimal 10 u.port)
      ∷ (codes "pcid=" ++ u.pc_device_id)
      ∷ (codes "fp=" ++ u.fingerprint)
      ∷ (codes "sid=" ++ u.session_id)
      ∷ (codes "code=" ++ u.code)
      ∷ (codes "exp=" ++ decimal 20 u.expires_at_ms)
      ∷ []

  version-back : str_to_unsigned long_bits (codes "1") % 2 ^ 32 ≡ 1
  version-back =
      let back = str_to_unsigned-digits long_bits (codes "1") refl (omega (arith, wide)) in
      omega (arith, back)

  port-back : str_to_unsigned long_bits (decimal 10 u.port) % 2 ^ 16 ≡ u.port
  port-back =
      let back =
        number-back long_bits 10 u.port (omega (arith, ok.port_half))
          (omega (arith, ok.port_half, wide)) in
      omega (arith, back, ok.port_half)

  expiry-back : str_to_unsigned 64 (decimal 20 u.expires_at_ms) ≡ u.expires_at_ms
  expiry-back =
      number-back 64 20 u.expires_at_ms (omega (arith, ok.expiry_word))
        (omega (arith, ok.expiry_word))

  set_fields-back : set_fields long_bits the_fields blank_uri ≡ u
  set_fields-back i = record {
    version = version-back i;
    host = u.host;
    port = port-back i;
    pc_device_id = u.pc_device_id;
    fingerprint = u.fingerprint;
    session_id = u.session_id;
    code = u.code;
    expires_at_ms = expiry-back i;
  }

  -- What follows the scheme.
  abbrev the_rest : List ℕ
  the_rest =
      codes "v=1&host="
      ++ (u.host
          ++ (codes "&port="
              ++ (decimal 10 u.port
                  ++ (codes "&pcid="
                      ++ (u.pc_device_id
                          ++ (codes "&fp="
                              ++ (u.fingerprint
                                  ++ (codes "&sid="
                                      ++ (u.session_id
                                          ++ (codes "&code="
                                              ++ (u.code
                                                  ++ (codes "&exp="
                                                      ++ decimal 20 u.expires_at_ms))))))))))))

  whole : whole_uri u ≡ codes "smartmic://pair?" ++ the_rest
  unfolding whole_uri
  whole =
      rw
        (
          c_str-whole u.host ok.host_text.0,
          c_str-whole u.pc_device_id ok.device_text.0,
          c_str-whole u.fingerprint ok.fingerprint_text.0,
          c_str-whole u.session_id ok.session_text.0,
          c_str-whole u.code ok.code_text.0,
        )
        refl

  segments-back : segments the_rest ≡ the_fields
  segments-back =
      let port = digits-lacks (decimal 10 u.port) (decimal-digits 10 u.port) in
      let expiry = digits-lacks (decimal 20 u.expires_at_ms) (decimal-digits 20 u.expires_at_ms) in
      rw
        (
          segments-next u.host ok.host_text.1,
          segments-next (decimal 10 u.port) port,
          segments-next u.pc_device_id ok.device_text.1,
          segments-next u.fingerprint ok.fingerprint_text.1,
          segments-next u.session_id ok.session_text.1,
          segments-next u.code ok.code_text.1,
          segments-last (decimal 20 u.expires_at_ms) expiry,
        )
        refl

  kept : take 511 (whole_uri u) ≡ whole_uri u
  kept = take_all 511 (whole_uri u) ok.short

  usable : checked u ≡ some u
  usable = rw ok.usable refl

  -- The link of an offer whose texts hold no ampersand or zero, with a host, device and session that are
  -- not empty, a code of six characters, a port other than 0, an expiry of 64 bits and at most 511
  -- characters, is parsed to exactly what it was built from, whatever the width of `unsigned long` from
  -- sixteen bits up.
  pub parse_pairing_uri-build_pairing_uri :
      parse_pairing_uri long_bits (build_pairing_uri device_id fingerprint offer host port) ≡ some u
  unfolding parse_pairing_uri build_pairing_uri
  parse_pairing_uri-build_pairing_uri =
      ap (parse_pairing_uri long_bits) (kept ∙ whole)
      ∙ ap (λ fields. checked (set_fields long_bits fields blank_uri)) segments-back
      ∙ ap checked set_fields-back
      ∙ usable
