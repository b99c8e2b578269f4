-- ===== src/Security/Exchange/Agreement.antt =====
-- pairing.cpp: two sides that use one code agree.
use smartmic_windows.Prelude.{ℕ, ◌≡◌, refl, sym, ap, ◌∙◌, true, false, List, some, arith}
use smartmic_windows.Security.Exchange.{
  Group, DeviceIdentity, PairingExchange, initiator, responder, ok, make, on_peer, derive,
  build_transcript, share_or_zero,
}

-- An element that `onPeer` accepts.
pub record IsElement (group : Group) (share : List ℕ) : Type 0 where
  pub not_zero : group.is_zero share ≡ false
  pub on_group : group.is_valid_point share ≡ true

module _ (group : Group) (a b : DeviceIdentity) (session_id code s t : List ℕ) where
  -- The initiator and the responder before they have heard of each other.
  abbrev pub first : PairingExchange
  first = make group a initiator session_id code s

  abbrev pub second : PairingExchange
  second = make group b responder session_id code t

  on_peer-derive :
      (x : PairingExchange) (peer share : List ℕ)
      → x.derived ≡ false
      → IsElement group share
      → on_peer group peer share x
        ≡ derive group
            (group.times x.scalar share)
            (record x { peer_public = peer; peer_share = share })
  unfolding on_peer
  on_peer-derive x peer share new e = ground (arith, new, e.not_zero, e.on_group)

  after_first : PairingExchange
  after_first = (on_peer group b.public_key second.our_share first).1

  after_second : PairingExchange
  after_second = (on_peer group a.public_key first.our_share second).1

  -- Two exchanges over one session and one code, the initiator's and the responder's, that hear each
  -- other's key and share: if scalar multiplication commutes and succeeds here, and the shares are
  -- elements, both derive, with the same transcript and the same session key.
  pub both_derive :
      (z : List ℕ)
      → ((p q g : List ℕ)
          → group.times p (share_or_zero group (group.times q g))
            ≡ group.times q (share_or_zero group (group.times p g)))
      → group.times s second.our_share ≡ some z
      → IsElement group first.our_share
      → IsElement group second.our_share
      → let (heard, x) = on_peer group b.public_key second.our_share first in
        let (heard', y) = on_peer group a.public_key first.our_share second in
        (heard ≡ ok)
        × (heard' ≡ ok)
        × (x.transcript ≡ y.transcript)
        × (x.session_key ≡ y.session_key)
  unfolding derive make build_transcript
  both_derive z commutes shared e e' = (
    ap (λ o. o.0) left,
    ap (λ o. o.0) right,
    ap (λ o. o.1.transcript) left ∙ sym (ap (λ o. o.1.transcript) right),
    ap (λ o. o.1.session_key) left ∙ sym (ap (λ o. o.1.session_key) right),
  )
    where
      told : PairingExchange
      told = record first { peer_public = b.public_key; peer_share = second.our_share }

      told' : PairingExchange
      told' = record second { peer_public = a.public_key; peer_share = first.our_share }

      left : on_peer group b.public_key second.our_share first ≡ derive group (some z) told
      left =
          on_peer-derive first b.public_key second.our_share refl e'
          ∙ ap (λ o. derive group o told) shared

      right : on_peer group a.public_key first.our_share second ≡ derive group (some z) told'
      right =
          on_peer-derive second a.public_key first.our_share refl e
          ∙ ap (λ o. derive group o told') (commutes t s second.generator ∙ shared)
