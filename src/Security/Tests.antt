-- ===== src/Security/Tests.antt =====
-- The offers and the exchange on concrete data.
use smartmic_windows.Prelude.{
  ℕ, ◌+◌, true, false, ◌&&◌, ◌≡◌, refl, ap, List, [], ◌∷◌, some, arith, length, All, inl, ◌==◌,
  if◌then◌else◌, add32,
}
use smartmic_windows.Protocol.Messages.{codes}
use smartmic_windows.Security.Link.{
  parse_pairing_uri, build_pairing_uri, uri_of, whole_uri, is_unusable, decimal,
}
use smartmic_windows.Security.Link.RoundTrip.{IsLinkable, parse_pairing_uri-build_pairing_uri}
use smartmic_windows.Security.Offers.{
  PairingOffer, PairingOfferBook, verify, has_outstanding, same_text,
}
use smartmic_windows.Security.Offers.Spent.{
  Call, calls, is_valid, Spent-for_good, verify_lem, verifies, checks, notes_failure,
}
use smartmic_windows.Security.Exchange.{Group, DeviceIdentity, ok, on_peer, make, share_or_zero}
use smartmic_windows.Security.Exchange.Agreement.{IsElement, first, second, both_derive}

abbrev used_book : PairingOfferBook
used_book = record {
  policy = record { ttl_seconds = 300; max_attempts = 5 };
  offer = record { session_id = 1 ∷ []; code = 4 ∷ 2 ∷ []; expires_at_ms = 1000; qr_uri = [] };
  has = true;
  is_consumed = true;
  attempts = 1;
}

abbrev late_calls : List Call
late_calls = checks (1 ∷ []) 10 ∷ verifies (1 ∷ []) (4 ∷ 2 ∷ []) 10 ∷ notes_failure (1 ∷ []) ∷ []

Spent-for_good_example : All (λ answer. is_valid answer ≡ false) (calls late_calls used_book).0
Spent-for_good_example = Spent-for_good late_calls used_book (inl refl) (omega arith)

abbrev right_code : List ℕ
right_code = 4 ∷ 2 ∷ []

abbrev live_book : PairingOfferBook
live_book = record used_book { is_consumed = false }

verify_lem_example :
    let live = has_outstanding 10 live_book && same_text (1 ∷ []) live_book.offer.session_id in
    let (status, b') = verify (1 ∷ []) right_code 10 live_book in
    (is_valid (some status) ≡ (
      live
      && ((length right_code == length live_book.offer.code)
          && same_text right_code live_book.offer.code)))
    × (b'
        ≡ (if live then record live_book { attempts = add32 live_book.attempts 1 } else live_book))
verify_lem_example = verify_lem (1 ∷ []) right_code 10 live_book

-- Shares are one number, and multiplication adds.
abbrev pub head_or_one : List ℕ → ℕ
head_or_one [] = 1
head_or_one (n ∷ ns) = n

abbrev pub toy_group : Group
toy_group = record {
  generator_of = λ seed. 3 ∷ [];
  times = λ p g. some ((head_or_one p + head_or_one g) ∷ []);
  is_zero = λ g. head_or_one g == 0;
  is_valid_point = λ g. true;
  hash = λ tag message. message;
  sign = λ key message. message;
  verify = λ key message sig. same_text message sig;
}

abbrev phone_identity : DeviceIdentity
phone_identity = record { secret_key = 1 ∷ []; public_key = 10 ∷ [] }

abbrev pub pc_identity : DeviceIdentity
pc_identity = record { secret_key = 2 ∷ []; public_key = 20 ∷ [] }

swap :
    (p q g : List ℕ)
    → toy_group.times p (share_or_zero toy_group (toy_group.times q g))
      ≡ toy_group.times q (share_or_zero toy_group (toy_group.times p g))
swap p q g =
    let e : head_or_one p + (head_or_one q + head_or_one g)
        ≡ head_or_one q + (head_or_one p + head_or_one g) =
      omega arith in
    ap (λ n. some (n ∷ [])) e

abbrev nine : List ℕ
nine = 9 ∷ []

abbrev eight : List ℕ
eight = 8 ∷ []

abbrev five : List ℕ
five = 5 ∷ []

abbrev seven : List ℕ
seven = 7 ∷ []

shared :
    toy_group.times five
      (second toy_group phone_identity pc_identity nine eight five seven).our_share
    ≡ some (15 ∷ [])
unfolding make
shared = refl

first-IsElement :
    IsElement toy_group (first toy_group phone_identity pc_identity nine eight five seven).our_share
unfolding make
first-IsElement = record { not_zero = refl; on_group = refl }

second-IsElement :
    IsElement toy_group
      (second toy_group phone_identity pc_identity nine eight five seven).our_share
unfolding make
second-IsElement = record { not_zero = refl; on_group = refl }

both_derive_example :
    let i = first toy_group phone_identity pc_identity nine eight five seven in
    let r = second toy_group phone_identity pc_identity nine eight five seven in
    let (heard, x) = on_peer toy_group (20 ∷ []) r.our_share i in
    let (heard', y) = on_peer toy_group (10 ∷ []) i.our_share r in
    (heard ≡ ok) × (heard' ≡ ok) × (x.transcript ≡ y.transcript) × (x.session_key ≡ y.session_key)
both_derive_example =
    both_derive toy_group phone_identity pc_identity nine eight five seven (15 ∷ []) swap shared
      first-IsElement second-IsElement

-- A link for a PC in the local network.
abbrev an_offer : PairingOffer
an_offer = record {
  session_id = codes "c0ffee";
  code = codes "042137";
  expires_at_ms = 1700000300000;
  qr_uri = [];
}

an_offer-IsLinkable :
    IsLinkable (uri_of (codes "pcid") (codes "12ab-34cd") an_offer (codes "192.168.1.7") 48000)
unfolding is_unusable whole_uri decimal
an_offer-IsLinkable = record {
  host_text = (refl, refl);
  device_text = (refl, refl);
  fingerprint_text = (refl, refl);
  session_text = (refl, refl);
  code_text = (refl, refl);
  port_half = omega arith;
  expiry_word = omega arith;
  usable = refl;
  short = omega arith;
}

parse_pairing_uri-build_pairing_uri_example :
    parse_pairing_uri 32
      (build_pairing_uri (codes "pcid") (codes "12ab-34cd") an_offer (codes "192.168.1.7") 48000)
    ≡ some (uri_of (codes "pcid") (codes "12ab-34cd") an_offer (codes "192.168.1.7") 48000)
parse_pairing_uri-build_pairing_uri_example =
    parse_pairing_uri-build_pairing_uri 32 (omega arith) (codes "pcid") (codes "12ab-34cd") an_offer
      (codes "192.168.1.7") 48000 an_offer-IsLinkable
