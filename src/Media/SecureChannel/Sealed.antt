-- ===== src/Media/SecureChannel/Sealed.antt =====
-- secure_channel.cpp: what one side seals the other opens, once.
use smartmic_windows.Prelude.{
  ℕ, ◌-◌, ◌≤◌, ◌<◌, ◌^◌, ◌≡◌, refl, sym, ap, ◌∙◌, subst, Bool, true, false, List, [], ◌∷◌, ◌++◌,
  Option, none, some, arith, length, take, drop, ltb, if◌then◌else◌, length-append,
  take-append_left, drop-append_right, take_all, le→ltb,
}
use mathlib.Core.Path.{ap₂}
use smartmic_windows.Protocol.ReplayWindow.{ReplayWindow, accept}
use smartmic_windows.Protocol.ReplayWindow.History.{
  Tracks, accept_refines, is_fresh, has, accept-known, reset-Tracks,
}
use smartmic_windows.Media.Bytes.{le_bytes, le_value, length-le_bytes, le_value-le_bytes}
use smartmic_windows.Media.SecureChannel.{
  Sodium, SecureChannel, Direction, opposite, init, seal, open_packet, open_with, open_fresh,
  build_nonce, secure_overhead, replay_width, phone_to_pc, pc_to_phone,
}

-- What `a` sends, `b` can receive.
pub record Paired (a b : SecureChannel) : Type 0 where
  pub a_ready : a.initialised ≡ true
  pub b_ready : b.initialised ≡ true
  pub key : b.recv_key ≡ a.send_key
  pub prefix : b.recv_nonce_prefix ≡ a.send_nonce_prefix

-- The message came out, the window moved, and the keys are as before.
record Delivered (plain : List ℕ) (b : SecureChannel) (w : ReplayWindow)
    (out : Option (List ℕ) × SecureChannel) : Type 0 where
  heard : out.0 ≡ some plain
  window : out.1.replay ≡ w
  ready : out.1.initialised ≡ b.initialised
  same_key : out.1.recv_key ≡ b.recv_key
  same_prefix : out.1.recv_nonce_prefix ≡ b.recv_nonce_prefix

module _ (sodium : Sodium) where
  abbrev box_of : List ℕ → SecureChannel → List ℕ
  box_of plain a = sodium.seal_box a.send_key (build_nonce a.send_nonce_prefix a.counter) plain

  -- The packet that `seal` puts on the wire.
  abbrev pub packet_of : List ℕ → SecureChannel → List ℕ
  packet_of plain a = le_bytes 8 a.counter ++ box_of plain a

  pub seal-packet_of :
      (plain : List ℕ) (a : SecureChannel)
      → a.initialised ≡ true
      → (seal sodium plain a).0 ≡ some (packet_of plain a)
  unfolding seal
  seal-packet_of plain a ready = ground arith

  packet-counter :
      (plain : List ℕ) (a : SecureChannel)
      → a.counter < 2 ^ 64
      → le_value (take 8 (packet_of plain a)) ≡ a.counter
  packet-counter plain a word =
      let n = length-le_bytes 8 a.counter in
      ap le_value (
        take-append_left 8 (le_bytes 8 a.counter) (box_of plain a) (omega (arith, n))
        ∙ take_all 8 (le_bytes 8 a.counter) (omega (arith, n)))
      ∙ le_value-le_bytes 8 a.counter word

  packet-box : (plain : List ℕ) (a : SecureChannel) → drop 8 (packet_of plain a) ≡ box_of plain a
  packet-box plain a =
      drop-append_right 8 (le_bytes 8 a.counter) (box_of plain a)
        (omega (arith, length-le_bytes 8 a.counter))
      ∙ ap (λ k. drop k (box_of plain a)) none_left
    where
      none_left : 8 - length (le_bytes 8 a.counter) ≡ 0
      none_left = omega (arith, length-le_bytes 8 a.counter)

  packet-long : (plain : List ℕ) (a : SecureChannel) → secure_overhead ≤ length (packet_of plain a)
  packet-long plain a = omega (
    arith,
    length-append (le_bytes 8 a.counter) (box_of plain a),
    length-le_bytes 8 a.counter,
    sodium.length-seal a.send_key (build_nonce a.send_nonce_prefix a.counter) plain,
  )

  -- An initialised channel hands a packet long enough to the box.
  open-long :
      (packet : List ℕ) (b : SecureChannel)
      → b.initialised ≡ true
      → secure_overhead ≤ length packet
      → open_packet sodium packet b
        ≡ open_with sodium
            (le_value (take 8 packet))
            (sodium.open_box b.recv_key
              (build_nonce b.recv_nonce_prefix (le_value (take 8 packet)))
              (drop 8 packet))
            b
  unfolding open_packet
  open-long packet b ready long =
      let e : ltb (length packet) secure_overhead ≡ false =
        le→ltb (length packet) secure_overhead long in
      ground arith

  open-sealed :
      (plain : List ℕ) (a b : SecureChannel)
      → Paired a b
      → a.counter < 2 ^ 64
      → open_packet sodium (packet_of plain a) b ≡ open_with sodium a.counter (some plain) b
  open-sealed plain a b p word =
      open-long (packet_of plain a) b p.b_ready (packet-long plain a)
      ∙ ap₂
          (λ c box.
            open_with sodium c (sodium.open_box b.recv_key (build_nonce b.recv_nonce_prefix c) box)
              b)
          (packet-counter plain a word) (packet-box plain a)
      ∙ ap₂
          (λ key prefix.
            open_with sodium a.counter
              (sodium.open_box key (build_nonce prefix a.counter) (box_of plain a)) b)
          p.key p.prefix
      ∙ ap (λ o. open_with sodium a.counter o b)
          (sodium.open-seal a.send_key (build_nonce a.send_nonce_prefix a.counter) plain)

  open_with-fresh :
      (counter : ℕ) (plain : List ℕ) (b : SecureChannel)
      → (accept replay_width b.replay counter).0 ≡ true
      → Delivered plain b
          (accept replay_width b.replay counter).1
          (open_with sodium counter (some plain) b)
  unfolding open_with open_fresh
  open_with-fresh counter plain b fresh = go (accept replay_width b.replay counter) fresh
    where
      go :
          (w : Bool × ReplayWindow)
          → w.0 ≡ true
          → Delivered plain b w.1 (open_fresh sodium w plain b)
      go (true, w) e = record {
        heard = refl;
        window = refl;
        ready = refl;
        same_key = refl;
        same_prefix = refl;
      }
      go (false, w) e = ground arith

  open_with-replay :
      (counter : ℕ) (plain : List ℕ) (b : SecureChannel)
      → (accept replay_width b.replay counter).0 ≡ false
      → (open_with sodium counter (some plain) b).0 ≡ none
  unfolding open_with open_fresh
  open_with-replay counter plain b stale = go (accept replay_width b.replay counter) stale
    where
      go : (w : Bool × ReplayWindow) → w.0 ≡ false → (open_fresh sodium w plain b).0 ≡ none
      go (true, w) e = ground arith
      go (false, w) e = refl

  -- A packet that one side seals opens on the other to the same message, provided the receiver has
  -- not seen its counter and its window has not moved past it; the same packet does not open again.
  pub sealed_opens_once :
      (history plain : List ℕ) (a b : SecureChannel)
      → Paired a b
      → a.counter < 2 ^ 64
      → Tracks replay_width history b.replay
      → is_fresh replay_width history b.replay a.counter ≡ true
      → let packet = packet_of plain a in
        let (heard, b') = open_packet sodium packet b in
        ((seal sodium plain a).0 ≡ some packet)
        × (heard ≡ some plain)
        × ((open_packet sodium packet b').0 ≡ none)
  sealed_opens_once history plain a b p word t fresh = (
    seal-packet_of plain a p.a_ready,
    ap (λ o. o.0) first ∙ d.heard,
    ap (λ o. (open_packet sodium (packet_of plain a) o.1).0) first
        ∙ ap (λ o. o.0) (open-sealed plain a b' paired word)
        ∙ open_with-replay a.counter plain b'
            (accept-known replay_width (a.counter ∷ history) b'.replay a.counter tracked known),
  )
    where
      b' : SecureChannel
      b' = (open_with sodium a.counter (some plain) b).1

      first : open_packet sodium (packet_of plain a) b ≡ open_with sodium a.counter (some plain) b
      first = open-sealed plain a b p word

      accepted : (accept replay_width b.replay a.counter).0 ≡ true
      accepted = (accept_refines replay_width history b.replay a.counter t).0 ∙ fresh

      d :
          Delivered plain b
            (accept replay_width b.replay a.counter).1
            (open_with sodium a.counter (some plain) b)
      d = open_with-fresh a.counter plain b accepted

      paired : Paired a b'
      paired = record {
        a_ready = p.a_ready;
        b_ready = d.ready ∙ p.b_ready;
        key = d.same_key ∙ p.key;
        prefix = d.same_prefix ∙ p.prefix;
      }

      known : has a.counter (a.counter ∷ history) ≡ true
      known = ground arith

      moved : Tracks replay_width (a.counter ∷ history) (accept replay_width b.replay a.counter).1
      moved =
          subst
            (λ ok.
              Tracks replay_width (if ok then a.counter ∷ history else history)
                (accept replay_width b.replay a.counter).1)
            accepted (accept_refines replay_width history b.replay a.counter t).1

      tracked : Tracks replay_width (a.counter ∷ history) b'.replay
      tracked = subst (Tracks replay_width (a.counter ∷ history)) (sym d.window) moved

opposite_twice : (d : Direction) → opposite (opposite d) ≡ d
opposite_twice phone_to_pc = refl
opposite_twice pc_to_phone = refl

-- After both sides have been initialised from one session key, each in its own direction, what
-- either sends the other can receive, and neither has sent or received anything yet.
pub init-Paired :
    (sodium : Sodium) (key : List ℕ) (send : Direction) (a b : SecureChannel)
    → sodium.ready ≡ true
    → let a' = (init sodium key send a).1 in
      let b' = (init sodium key (opposite send) b).1 in
      Paired a' b'
      × Paired b' a'
      × (a'.counter ≡ 0)
      × (b'.counter ≡ 0)
      × Tracks replay_width [] a'.replay
      × Tracks replay_width [] b'.replay
unfolding init
init-Paired sodium key send a b ready =
    rw (ready, opposite_twice send)
      (
        record { a_ready = refl; b_ready = refl; key = refl; prefix = refl },
        record { a_ready = refl; b_ready = refl; key = refl; prefix = refl },
        refl,
        refl,
        reset-Tracks replay_width,
        reset-Tracks replay_width,
      )

-- Two packets of one channel never share a nonce before the counter wraps.
pub nonces_differ :
    (prefix : List ℕ) (c c' : ℕ)
    → c < 2 ^ 64
    → c' < 2 ^ 64
    → build_nonce prefix c ≡ build_nonce prefix c'
    → c ≡ c'
nonces_differ prefix c c' h h' e =
    sym (read_back c h) ∙ ap (λ n. le_value (drop (length prefix) n)) e ∙ read_back c' h'
  where
    read_back : (k : ℕ) → k < 2 ^ 64 → le_value (drop (length prefix) (build_nonce prefix k)) ≡ k
    read_back k small =
        ap le_value (
          drop-append_right (length prefix) prefix (le_bytes 8 k) (omega arith)
          ∙ ap (λ n. drop n (le_bytes 8 k)) none_left)
        ∙ le_value-le_bytes 8 k small
      where
        none_left : length prefix - length prefix ≡ 0
        none_left = omega arith
