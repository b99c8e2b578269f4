-- ===== src/Session/PeerSession/Choke.antt =====
-- peer_session.cpp: nothing but pairing gets through before a session is authenticated, and a session
-- is authenticated only over a signature that its exchange accepts.
use smartmic_windows.Prelude.{
  ℕ, ◌≡◌, ◌≢◌, refl, ap, true, false, List, ◌∷◌, Option, none, some, arith, ◌==◌, Bool-cases, ◌⊎◌,
  inl, inr, ne→eqb,
}
use smartmic_windows.Media.SecureChannel.{Sodium}
use smartmic_windows.Security.Exchange.{
  Group, PairingRole, PairingExchange, PairingError, initiator, responder, ok, verify_peer_auth,
}
use smartmic_windows.Session.PeerSession.{
  PeerSession, Hello, HelloKind, Readers, pair1, pair2, pair3, pair4, pair_err, other,
  authenticated, failed, set_state, on_hello, on_pair1, on_pair2, on_pair3, on_pair4, judge_pair3,
  judge_pair4, check_sig, failure, reject, on_datagram, same_state, is_ok, answer_pair1, answer_new,
  with_fields, send_control, send_media,
}

is_ok-ok : (err : PairingError) → is_ok err ≡ true → err ≡ ok
is_ok-ok err e = ground arith

-- Not authenticated.
pub record Closed (s : PeerSession) : Type 0 where
  pub shut : same_state s.state authenticated ≡ false

set_failed-Closed : (s : PeerSession) → Closed (set_state failed s)
unfolding set_state
set_failed-Closed s = record { shut = ground arith }

module _ (sodium : Sodium) (group : Group) (readers : Readers) where
  -- While a session is not authenticated, a datagram that is not a pairing message is rejected and
  -- changes nothing else, and nothing can be sent but pairing messages.
  pub closed_until_authenticated :
      (now tag : ℕ) (scalar body text payload : List ℕ) (s : PeerSession)
      → same_state s.state authenticated ≡ false
      → tag ≢ 0
      → (on_datagram sodium group readers now scalar (tag ∷ body) s ≡ reject s)
        × (send_control sodium group readers text s ≡ (false, s))
        × (send_media sodium group readers payload s ≡ (false, s))
  unfolding on_datagram send_control send_media
  closed_until_authenticated now tag scalar body text payload s closed other_tag =
      let e : (tag == 0) ≡ false = ne→eqb tag 0 other_tag in
      (ground arith, ground arith, ground arith)

  -- The exchange that is held accepts a signature that the message carries.
  abbrev pub Signed : Hello → Option PairingExchange → Type 0
  Signed h none = ⊥
  Signed h (some x) = (sig : List ℕ) × (h.sig ≡ some sig) × (verify_peer_auth group sig x ≡ ok)

  answer_new-Closed :
      (peer share scalar : List ℕ) (s : PeerSession)
      → Closed s
      → Closed (answer_new sodium group readers peer share scalar s)
  unfolding answer_new set_state
  answer_new-Closed peer share scalar s c = record { shut = ground (arith, c.shut) }

  answer_pair1-Closed :
      (o : Option PairingExchange) (peer share scalar : List ℕ) (s : PeerSession)
      → Closed s
      → Closed (answer_pair1 sodium group readers o peer share scalar s)
  unfolding answer_pair1
  answer_pair1-Closed none peer share scalar s c = answer_new-Closed peer share scalar s c
  answer_pair1-Closed (some x) peer share scalar s c =
      let new = answer_new-Closed peer share scalar s c in
      record { shut = ground (arith, c.shut, new.shut) }

  with_fields-Closed :
      (a b : Option (List ℕ)) (next : List ℕ → List ℕ → PeerSession → PeerSession) (s : PeerSession)
      → ((peer share : List ℕ) → Closed (next peer share s))
      → Closed s
      → Closed (with_fields sodium group readers a b next s)
  unfolding with_fields
  with_fields-Closed none b next s h c = record { shut = c.shut }
  with_fields-Closed (some peer) none next s h c = record { shut = c.shut }
  with_fields-Closed (some peer) (some share) next s h c = h peer share

  on_pair1-Closed :
      (now : ℕ) (scalar : List ℕ) (h : Hello) (s : PeerSession)
      → Closed s
      → Closed (on_pair1 sodium group readers now scalar h s)
  unfolding on_pair1 set_state
  on_pair1-Closed now scalar h s c =
      let answered =
        with_fields-Closed h.public_key h.share
          (λ peer share s'. answer_pair1 sodium group readers s'.exchange peer share scalar s') s
          (λ peer share. answer_pair1-Closed s.exchange peer share scalar s c) c in
      record { shut = ground (arith, c.shut, answered.shut) }

  on_pair2-Closed :
      (o : Option PairingExchange) (h : Hello) (s : PeerSession)
      → Closed s
      → Closed (on_pair2 sodium group readers o h s)
  unfolding on_pair2 set_state
  on_pair2-Closed none h s c = record { shut = c.shut }
  on_pair2-Closed (some x) h s c =
      with_fields-Closed h.public_key h.share _ s
        (λ peer share. record { shut = ground (arith, c.shut) }) c

  judge_pair3-Closed :
      (o : Option PairingError) (x : PairingExchange) (s : PeerSession)
      → Closed s
      → (o ≡ some ok) ⊎ Closed (judge_pair3 sodium group readers o x s)
  unfolding judge_pair3 set_state
  judge_pair3-Closed none x s c = inr (record { shut = c.shut })
  judge_pair3-Closed (some err) x s c = elim (Bool-cases (is_ok err)) [
    | inl good ↦ inl (ap some (is_ok-ok err good))
    | inr bad ↦ inr (record { shut = ground arith })
  ]

  judge_pair4-Closed :
      (o : Option PairingError) (x : PairingExchange) (s : PeerSession)
      → Closed s
      → (o ≡ some ok) ⊎ Closed (judge_pair4 sodium group readers o x s)
  unfolding judge_pair4 set_state
  judge_pair4-Closed none x s c = inr (record { shut = c.shut })
  judge_pair4-Closed (some err) x s c = elim (Bool-cases (is_ok err)) [
    | inl good ↦ inl (ap some (is_ok-ok err good))
    | inr bad ↦ inr (record { shut = ground arith })
  ]

  checked-Signed :
      (o : Option (List ℕ)) (x : PairingExchange)
      → check_sig sodium group readers o x ≡ some ok
      → (sig : List ℕ) × (o ≡ some sig) × (verify_peer_auth group sig x ≡ ok)
  unfolding check_sig
  checked-Signed none x e = ground arith
  checked-Signed (some sig) x e = (sig, refl, ground arith)

  on_pair3-SignedOrClosed :
      (o : Option PairingExchange) (h : Hello) (s : PeerSession)
      → Closed s
      → Signed h o ⊎ Closed (on_pair3 sodium group readers o h s)
  unfolding on_pair3
  on_pair3-SignedOrClosed none h s c = inr (record { shut = c.shut })
  on_pair3-SignedOrClosed (some x) h s c =
      elim (judge_pair3-Closed (check_sig sodium group readers h.sig x) x s c) [
        | inl good ↦ inl (checked-Signed h.sig x good)
        | inr closed ↦ inr closed
      ]

  on_pair4-SignedOrClosed :
      (o : Option PairingExchange) (h : Hello) (s : PeerSession)
      → Closed s
      → Signed h o ⊎ Closed (on_pair4 sodium group readers o h s)
  unfolding on_pair4
  on_pair4-SignedOrClosed none h s c = inr (record { shut = c.shut })
  on_pair4-SignedOrClosed (some x) h s c =
      elim (judge_pair4-Closed (check_sig sodium group readers h.sig x) x s c) [
        | inl good ↦ inl (checked-Signed h.sig x good)
        | inr closed ↦ inr closed
      ]

  -- A session that is not authenticated is still not authenticated after a pairing message, unless the
  -- message carries a signature that the exchange which the session holds accepts.
  pub authenticated_only-Signed :
      (kind : HelloKind) (role : PairingRole) (now : ℕ) (scalar : List ℕ) (h : Hello)
      (s : PeerSession)
      → Closed s
      → Signed h s.exchange ⊎ Closed (on_hello sodium group readers kind role now scalar h s)
  unfolding on_hello
  authenticated_only-Signed pair1 responder now scalar h s c =
      inr (on_pair1-Closed now scalar h s c)
  authenticated_only-Signed pair2 initiator now scalar h s c =
      inr (on_pair2-Closed s.exchange h s c)
  authenticated_only-Signed pair3 responder now scalar h s c =
      on_pair3-SignedOrClosed s.exchange h s c
  authenticated_only-Signed pair4 initiator now scalar h s c =
      on_pair4-SignedOrClosed s.exchange h s c
  authenticated_only-Signed pair_err role now scalar h s c =
      inr (set_failed-Closed (failure sodium group readers s))
  authenticated_only-Signed pair1 initiator now scalar h s c = inr (record { shut = c.shut })
  authenticated_only-Signed pair2 responder now scalar h s c = inr (record { shut = c.shut })
  authenticated_only-Signed pair3 initiator now scalar h s c = inr (record { shut = c.shut })
  authenticated_only-Signed pair4 responder now scalar h s c = inr (record { shut = c.shut })
  authenticated_only-Signed other role now scalar h s c = inr (record { shut = c.shut })
