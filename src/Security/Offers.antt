-- ===== src/Security/Offers.antt =====
-- PairingOfferBook of shared/security/src/pairing.cpp and pairing.h. Strings are lists of character
-- codes; the random choices and the link that `buildPairingUri` prints are arguments.
pub mod Spent
use smartmic_windows.Prelude.{
  ℕ, zero, suc, ◌+◌, ◌*◌, ◌^◌, Bool, true, false, ◌&&◌, ◌||◌, not, List, [], ◌∷◌, Option, none,
  some, length, leb, ltb, ◌==◌, if◌then◌else◌, add32, add64,
}

pub record PairingPolicy : Type 0 where
  pub ttl_seconds : ℕ
  pub max_attempts : ℕ

pub record PairingOffer : Type 0 where
  pub session_id : List ℕ
  pub code : List ℕ
  pub expires_at_ms : ℕ
  pub qr_uri : List ℕ

pub data OfferStatus : Type 0 where
  valid expired throttled unknown consumed : OfferStatus

pub record PairingOfferBook : Type 0 where
  pub policy : PairingPolicy
  pub offer : PairingOffer
  pub has : Bool
  pub is_consumed : Bool
  pub attempts : ℕ

-- `==` of two strings, and `sodium_memcmp` of two of the same length.
abbrev pub same_text : List ℕ → List ℕ → Bool
same_text [] [] = true
same_text [] (y ∷ ys) = false
same_text (x ∷ xs) [] = false
same_text (x ∷ xs) (y ∷ ys) = if x == y then same_text xs ys else false

-- The session identifier that `issue` uses: the fixed one, unless it is missing or empty.
abbrev pub session_id_for : Option (List ℕ) → List ℕ → List ℕ
session_id_for none random = random
session_id_for (some []) random = random
session_id_for (some (c ∷ cs)) random = c ∷ cs

-- The code that `issue` uses: the fixed one, if it has six digits.
abbrev pub code_for : Option (List ℕ) → List ℕ → List ℕ
code_for none random = random
code_for (some code) random = if length code == 6 then code else random

unfoldable pub issue :
    (PairingOffer → List ℕ)
    → ℕ
    → Option (List ℕ)
    → Option (List ℕ)
    → List ℕ
    → List ℕ
    → PairingOfferBook
    → PairingOffer × PairingOfferBook
issue build_uri now_ms fixed_code fixed_session random_code random_session b =
    let bare : PairingOffer = record {
      session_id = session_id_for fixed_session random_session;
      code = code_for fixed_code random_code;
      expires_at_ms = add64 now_ms (b.policy.ttl_seconds * 1000);
      qr_uri = [];
    } in
    let o : PairingOffer = record bare { qr_uri = build_uri bare } in
    (o, record b { offer = o; has = true; is_consumed = false; attempts = 0 })

unfoldable pub has_outstanding : ℕ → PairingOfferBook → Bool
has_outstanding now_ms b =
    b.has
    && (not b.is_consumed
        && (ltb now_ms b.offer.expires_at_ms && ltb b.attempts b.policy.max_attempts))

-- The four early returns that `verify` and `check` share.
unfoldable pub refusal : List ℕ → ℕ → PairingOfferBook → Option OfferStatus
refusal session_id now_ms b =
    if not b.has || not (same_text session_id b.offer.session_id)
    then some unknown
    else if b.is_consumed
    then some consumed
    else if leb b.offer.expires_at_ms now_ms
    then some expired
    else if leb b.policy.max_attempts b.attempts
    then some throttled
    else none

-- `verify` from the line that counts the attempt on.
unfoldable pub compare_code : List ℕ → PairingOfferBook → OfferStatus × PairingOfferBook
compare_code code b =
    let b' : PairingOfferBook = record b { attempts = add32 b.attempts 1 } in
    (
      if (length code == length b.offer.code) && same_text code b.offer.code
          then valid
          else if leb b'.policy.max_attempts b'.attempts
          then throttled
          else unknown,
      b',
    )

unfoldable pub or_compare :
    Option OfferStatus → List ℕ → PairingOfferBook → OfferStatus × PairingOfferBook
unfolding compare_code
or_compare none code b = compare_code code b
or_compare (some status) code b = (status, b)

unfoldable pub verify : List ℕ → List ℕ → ℕ → PairingOfferBook → OfferStatus × PairingOfferBook
unfolding refusal or_compare
verify session_id code now_ms b = or_compare (refusal session_id now_ms b) code b

abbrev pub or_valid : Option OfferStatus → OfferStatus
or_valid none = valid
or_valid (some status) = status

unfoldable pub check : List ℕ → ℕ → PairingOfferBook → OfferStatus
unfolding refusal
check session_id now_ms b = or_valid (refusal session_id now_ms b)

unfoldable pub note_failed_attempt : List ℕ → PairingOfferBook → PairingOfferBook
note_failed_attempt session_id b =
    if b.has && same_text session_id b.offer.session_id
    then record b { attempts = add32 b.attempts 1 }
    else b

unfoldable pub consume : List ℕ → PairingOfferBook → PairingOfferBook
consume session_id b =
    if b.has && same_text session_id b.offer.session_id then record b { is_consumed = true } else b

unfoldable pub clear : PairingOfferBook → PairingOfferBook
clear b = record b { has = false }
