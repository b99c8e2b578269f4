-- ===== src/Media/SecureChannel/Once.antt =====
-- secure_channel.cpp: what any packets at all, forged, replayed or reordered, can do to a receiver.
use smartmic_windows.Prelude.{
  ℕ, ◌≡◌, refl, sym, ap, ◌∙◌, subst, Bool, true, false, List, [], ◌∷◌, Option, none, some, arith,
  length, take, drop, ltb, if◌then◌else◌, Bool-cases, ◌⊎◌, inl, inr,
}
use smartmic_windows.Protocol.ReplayWindow.{ReplayWindow, accept}
use smartmic_windows.Protocol.ReplayWindow.History.{
  Tracks, NoRepeat, accept_refines, is_fresh, has, accept-known,
}
use smartmic_windows.Media.Bytes.{le_value}
use smartmic_windows.Media.SecureChannel.{
  Sodium, SecureChannel, open_packet, open_with, open_fresh, build_nonce, secure_overhead,
  replay_width,
}

abbrev pub counter_of : List ℕ → ℕ
counter_of packet = le_value (take 8 packet)

-- The numbers delivered, with one more if something came out.
abbrev pub noted : ℕ → Option (List ℕ) → List ℕ → List ℕ
noted counter none history = history
noted counter (some plain) history = counter ∷ history

-- The receiver's window stands for what has been delivered, and never repeats.
pub record Guarded (history : List ℕ) (ch : SecureChannel) : Type 0 where
  pub tracks : Tracks replay_width history ch.replay
  pub no_repeat : NoRepeat history

module _ (sodium : Sodium) where
  abbrev GuardedAfter : ℕ → List ℕ → Option (List ℕ) × SecureChannel → Type 0
  GuardedAfter counter history out = Guarded (noted counter out.0 history) out.1

  open_with-Guarded :
      (counter : ℕ) (o : Option (List ℕ)) (history : List ℕ) (ch : SecureChannel)
      → Guarded history ch
      → GuardedAfter counter history (open_with sodium counter o ch)
  unfolding open_with open_fresh
  open_with-Guarded counter none history ch g = record {
    tracks = g.tracks;
    no_repeat = g.no_repeat;
  }
  open_with-Guarded counter (some plain) history ch g =
      go (accept replay_width ch.replay counter) refl after.1
    where
      after :
          let (ok, w') = accept replay_width ch.replay counter in
          (ok ≡ is_fresh replay_width history ch.replay counter)
          × Tracks replay_width (if ok then counter ∷ history else history) w'
      after = accept_refines replay_width history ch.replay counter g.tracks

      go :
          (w : Bool × ReplayWindow)
          → accept replay_width ch.replay counter ≡ w
          → Tracks replay_width (if w.0 then counter ∷ history else history) w.1
          → GuardedAfter counter history (open_fresh sodium w plain ch)
      go (false, w) e t = record { tracks = t; no_repeat = g.no_repeat }
      go (true, w) e t = record { tracks = t; no_repeat = (unseen, g.no_repeat) }
        where
          unseen : has counter history ≡ false
          unseen = elim (Bool-cases (has counter history)) [
            | inr u ↦ u
            | inl known ↦
                let no = accept-known replay_width history ch.replay counter g.tracks known in
                let yes_ : (accept replay_width ch.replay counter).0 ≡ true = ap (λ q. q.0) e in
                ground arith
          ]

  open-cases :
      (packet : List ℕ) (ch : SecureChannel)
      → (((open_packet sodium packet ch).0 ≡ none)
          × ((open_packet sodium packet ch).1.replay ≡ ch.replay)
          × ((open_packet sodium packet ch).1.opened ≡ ch.opened)
          × ((open_packet sodium packet ch).1.counter ≡ ch.counter))
        ⊎ (open_packet sodium packet ch
            ≡ open_with sodium
                (counter_of packet)
                (sodium.open_box ch.recv_key
                  (build_nonce ch.recv_nonce_prefix (counter_of packet))
                  (drop 8 packet))
                ch)
  unfolding open_packet
  open-cases packet ch = elim (Bool-cases ch.initialised) [
    | inr off ↦ inl (ground arith, ground arith, ground arith, ground arith)
    | inl on ↦ elim (Bool-cases (ltb (length packet) secure_overhead)) [
      | inl short ↦ inl (ground arith, ground arith, ground arith, ground arith)
      | inr long ↦ inr (ground arith)
    ]
  ]

  open-Guarded :
      (packet history : List ℕ) (ch : SecureChannel)
      → Guarded history ch
      → GuardedAfter (counter_of packet) history (open_packet sodium packet ch)
  open-Guarded packet history ch g = elim (open-cases packet ch) [
    | inl (out, same, _, _) ↦ record {
      tracks =
          subst
            (λ o.
              Tracks replay_width (noted (counter_of packet) o history)
                (open_packet sodium packet ch).1.replay)
            (sym out) (subst (Tracks replay_width history) (sym same) g.tracks);
      no_repeat = subst (λ o. NoRepeat (noted (counter_of packet) o history)) (sym out) g.no_repeat;
    }
    | inr e ↦
        subst (GuardedAfter (counter_of packet) history) (sym e)
          (open_with-Guarded (counter_of packet) _ history ch g)
  ]

  -- The counters of the packets that are delivered, the last first, after those delivered before.
  abbrev pub delivered : List (List ℕ) → SecureChannel → List ℕ → List ℕ
  delivered [] ch history = history
  delivered (packet ∷ packets) ch history =
      let (out, ch') = open_packet sodium packet ch in
      delivered packets ch' (noted (counter_of packet) out history)

  -- Whatever packets arrive, forged, repeated or reordered, no two that are delivered have the same
  -- counter, nor one that was delivered before.
  pub delivers_once :
      (packets : List (List ℕ)) (history : List ℕ) (ch : SecureChannel)
      → Guarded history ch
      → NoRepeat (delivered packets ch history)
  delivers_once [] history ch g = g.no_repeat
  delivers_once (packet ∷ packets) history ch g =
      delivers_once packets _ (open_packet sodium packet ch).1 (open-Guarded packet history ch g)

  -- A packet that the key does not open delivers nothing and leaves the window where it was, so
  -- that it cannot push out packets still on their way.
  pub forged_moves_nothing :
      (packet : List ℕ) (ch : SecureChannel)
      → sodium.open_box ch.recv_key
          (build_nonce ch.recv_nonce_prefix (counter_of packet))
          (drop 8 packet)
        ≡ none
      → let (out, ch') = open_packet sodium packet ch in
        (out ≡ none)
        × (ch'.replay ≡ ch.replay)
        × (ch'.opened ≡ ch.opened)
        × (ch'.counter ≡ ch.counter)
  unfolding open_with
  forged_moves_nothing packet ch e = elim (open-cases packet ch) [
    | inl unmoved ↦ unmoved
    | inr q ↦
        let failed = q ∙ ap (λ o. open_with sodium (counter_of packet) o ch) e in
        (
          ap (λ o. o.0) failed,
          ap (λ o. o.1.replay) failed,
          ap (λ o. o.1.opened) failed,
          ap (λ o. o.1.counter) failed,
        )
  ]
