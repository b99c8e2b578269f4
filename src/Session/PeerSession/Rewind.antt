-- ===== src/Session/PeerSession/Rewind.antt =====
-- peer_session.cpp: what plaintext pairing messages do to a session that is already authenticated.
use smartmic_windows.Prelude.{ℕ, ◌≡◌, refl, sym, ap, ◌∙◌, subst, true, List, ◌∷◌, ◌++◌, some, arith}
use smartmic_windows.Protocol.ReplayWindow.{ReplayWindow}
use smartmic_windows.Protocol.ReplayWindow
use smartmic_windows.Media.Bytes.{le_bytes}
use smartmic_windows.Media.SecureChannel.{
  Sodium, SecureChannel, Direction, init, seal, build_nonce, key_id, nonce_id, opposite,
  pc_to_phone,
}
use smartmic_windows.Security.Exchange.{
  Group, PairingExchange, responder, ok, verify_peer_auth, auth_signature,
}
use smartmic_windows.Session.PeerSession.{
  PeerSession, SessionState, Hello, Readers, pair3, pair_err, authenticated, failed, set_state,
  establish, on_hello, on_pair3, judge_pair3, check_sig, failure, put, parsed, handle_pairing,
  on_datagram, sends_pair4, direction_of,
}

set_state-state : (to : SessionState) (s : PeerSession) → (set_state to s).state ≡ to
unfolding set_state
set_state-state to s = ground arith

-- A session as it is just after pairing: both replay windows are empty and the send counter is 0.
pub record Rewound (s : PeerSession) : Type 0 where
  pub state : s.state ≡ authenticated
  pub counter : s.channel.counter ≡ 0
  pub packets : s.channel.replay ≡ ReplayWindow.reset
  pub controls : s.control_replay ≡ ReplayWindow.reset

-- A channel that is keyed in a direction by the session key of an exchange.
pub record Keyed (sodium : Sodium) (d : Direction) (x : PairingExchange) (ch : SecureChannel)
    : Type 0 where
  pub ready : ch.initialised ≡ true
  pub sending : ch.send_key ≡ sodium.derive 32 (key_id d) x.session_key
  pub receiving : ch.recv_key ≡ sodium.derive 32 (key_id (opposite d)) x.session_key
  pub sending_nonce : ch.send_nonce_prefix ≡ sodium.derive 16 (nonce_id d) x.session_key
  pub receiving_nonce :
      ch.recv_nonce_prefix ≡ sodium.derive 16 (nonce_id (opposite d)) x.session_key

-- What such a channel seals first.
seal-first :
    (sodium : Sodium) (d : Direction) (x : PairingExchange) (plain : List ℕ) (ch : SecureChannel)
    → Keyed sodium d x ch
    → ch.counter ≡ 0
    → (seal sodium plain ch).0
      ≡ some (
          le_bytes 8 0
          ++ sodium.seal_box
              (sodium.derive 32 (key_id d) x.session_key)
              (build_nonce (sodium.derive 16 (nonce_id d) x.session_key) 0)
              plain)
unfolding seal
seal-first sodium d x plain ch k first = simp (k.ready, k.sending, k.sending_nonce, first)

module _ (sodium : Sodium) (group : Group) (readers : Readers) where
  establish-Rewound :
      (x : PairingExchange) (s : PeerSession)
      → sodium.ready ≡ true
      → Rewound (establish sodium group readers x s)
        × Keyed sodium (direction_of s.role) x (establish sodium group readers x s).channel
        × ((establish sodium group readers x s).exchange ≡ s.exchange)
        × ((establish sodium group readers x s).role ≡ s.role)
  unfolding establish set_state init
  establish-Rewound x s ready = (
    record {
      state = ground arith;
      counter = ground arith;
      packets = ground arith;
      controls = ground arith;
    },
    record {
      ready = ground arith;
      sending = ground arith;
      receiving = ground arith;
      sending_nonce = ground arith;
      receiving_nonce = ground arith;
    },
    ground arith,
    ground arith,
  )

  pairing_datagram :
      (now : ℕ) (scalar text : List ℕ) (h : Hello) (s : PeerSession)
      → readers.parse text ≡ some h
      → on_datagram sodium group readers now scalar (0 ∷ text) s
        ≡ on_hello sodium group readers h.kind s.role now scalar h s
  unfolding on_datagram handle_pairing parsed
  pairing_datagram now scalar text h s e = rw e refl

  accept_pair3 :
      (now : ℕ) (scalar text sig : List ℕ) (h : Hello) (x : PairingExchange) (s : PeerSession)
      → readers.parse text ≡ some h
      → h.kind ≡ pair3
      → h.sig ≡ some sig
      → s.role ≡ responder
      → s.exchange ≡ some x
      → verify_peer_auth group sig x ≡ ok
      → on_datagram sodium group readers now scalar (0 ∷ text) s
        ≡ establish sodium group readers x (put (sends_pair4 (auth_signature group x)) s)
  unfolding on_hello on_pair3 judge_pair3 check_sig
  accept_pair3 now scalar text sig h x s read kind signed role held good =
      pairing_datagram now scalar text h s read
      ∙ ap (λ k. on_hello sodium group readers k s.role now scalar h s) kind
      ∙ ap (λ r. on_hello sodium group readers pair3 r now scalar h s) role
      ∙ ap (λ o. on_pair3 sodium group readers o h s) held
      ∙ ap (λ o. judge_pair3 sodium group readers (check_sig sodium group readers o x) x s) signed
      ∙ ap (λ err. judge_pair3 sodium group readers (some err) x s) good

  -- What a session is once it has accepted a PAIR3 over an exchange.
  pub record Paired (x : PairingExchange) (s : PeerSession) : Type 0 where
    pub rewound : Rewound s
    pub keyed : Keyed sodium pc_to_phone x s.channel
    pub same_exchange : s.exchange ≡ some x
    pub same_role : s.role ≡ responder

  accept_pair3-Paired :
      (now : ℕ) (scalar text sig : List ℕ) (h : Hello) (x : PairingExchange) (s : PeerSession)
      → sodium.ready ≡ true
      → readers.parse text ≡ some h
      → h.kind ≡ pair3
      → h.sig ≡ some sig
      → s.role ≡ responder
      → s.exchange ≡ some x
      → verify_peer_auth group sig x ≡ ok
      → Paired x (on_datagram sodium group readers now scalar (0 ∷ text) s)
  accept_pair3-Paired now scalar text sig h x s ready read kind signed role held good =
      let answered = put (sends_pair4 (auth_signature group x)) s in
      let (rewound, keyed, exchange, role') = establish-Rewound x answered ready in
      subst (Paired x)
        (sym (accept_pair3 now scalar text sig h x s read kind signed role held good))
        (record {
          rewound = rewound;
          keyed =
              subst
                (λ r.
                  Keyed sodium (direction_of r) x
                    (establish sodium group readers x answered).channel)
                role keyed;
          same_exchange = exchange ∙ held;
          same_role = role' ∙ role;
        })

  -- A responder accepts a PAIR3 datagram, and later, in any state in which it still holds the
  -- exchange, the same datagram again: each time it is authenticated, its channel is keyed by the
  -- session key of the exchange, its send counter is 0 and both its replay windows are empty, and it
  -- holds the exchange, so that this can be repeated; and whatever is sealed first after the second
  -- time gets the key and the nonce of what was sealed first after the first.
  pub pair3_rewinds :
      (now now' : ℕ) (scalar scalar' text sig : List ℕ) (h : Hello) (x : PairingExchange)
      (s later : PeerSession)
      → sodium.ready ≡ true
      → readers.parse text ≡ some h
      → h.kind ≡ pair3
      → h.sig ≡ some sig
      → verify_peer_auth group sig x ≡ ok
      → (s.role ≡ responder) × (s.exchange ≡ some x)
      → (later.role ≡ responder) × (later.exchange ≡ some x)
      → let first = on_datagram sodium group readers now scalar (0 ∷ text) s in
        let again = on_datagram sodium group readers now' scalar' (0 ∷ text) later in
        Paired x first
        × Paired x again
        × ((plain : List ℕ)
            → (seal sodium plain again.channel).0 ≡ (seal sodium plain first.channel).0)
        × ((plain : List ℕ)
            → (seal sodium plain again.channel).0
              ≡ some (
                  le_bytes 8 0
                  ++ sodium.seal_box
                      (sodium.derive 32 (key_id pc_to_phone) x.session_key)
                      (build_nonce (sodium.derive 16 (nonce_id pc_to_phone) x.session_key) 0)
                      plain))
  pair3_rewinds now now' scalar scalar' text sig h x s later ready read kind signed good before
        after =
      let one =
        accept_pair3-Paired now scalar text sig h x s ready read kind signed before.0 before.1
          good in
      let two =
        accept_pair3-Paired now' scalar' text sig h x later ready read kind signed after.0 after.1
          good in
      let sealed_two =
        λ (plain : List ℕ). seal-first sodium pc_to_phone x plain _ two.keyed two.rewound.counter in
      (
        one,
        two,
        λ plain.
            sealed_two plain
            ∙ sym (seal-first sodium pc_to_phone x plain _ one.keyed one.rewound.counter),
        sealed_two,
      )

  -- A plaintext PAIRERR datagram ends any session in `failed`, also one that is authenticated.
  pub pair_err_fails :
      (now : ℕ) (scalar text : List ℕ) (h : Hello) (s : PeerSession)
      → readers.parse text ≡ some h
      → h.kind ≡ pair_err
      → (on_datagram sodium group readers now scalar (0 ∷ text) s).state ≡ failed
  unfolding on_hello
  pair_err_fails now scalar text h s read kind =
      ap (λ q. q.state)
        (pairing_datagram now scalar text h s read
          ∙ ap (λ k. on_hello sodium group readers k s.role now scalar h s) kind)
      ∙ set_state-state failed (failure sodium group readers s)
