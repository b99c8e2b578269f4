-- ===== src/Apps/Phone/Live.antt =====
-- phone_runtime.cpp: when the phone is live, and when it sends its microphone.
use smartmic_windows.Prelude.{
  ℕ, suc, ◌≡◌, ◌≢◌, refl, sym, ◌∙◌, true, false, List, [], ◌∷◌, Option, none, some, All, arith,
}
use smartmic_windows.Media.PhoneSource.{Encoder, MediaSender, pack_frame}
use smartmic_windows.Session.PeerSession.{SessionState}
use smartmic_windows.Apps.Phone.{
  Phone, Sent, Received, ptt_ready, ptt_stopped, pong, status, error, other_message, live,
  begins_pairing, resends_hello, start_ptt, stop_ptt, ping, set_mode, media, on_control,
  on_capture_frame, retry_pairing, send_ping, arm_expires, release_expires, worker_round,
  on_state_changed, take_haptic, press, release, change_mode, send_packed,
}

-- How many frames of the microphone an outbox holds.
abbrev pub media_count : List Sent → ℕ
media_count [] = 0
media_count (media payload ∷ ms) = suc (media_count ms)
media_count (begins_pairing ∷ ms) = media_count ms
media_count (resends_hello ∷ ms) = media_count ms
media_count (start_ptt ∷ ms) = media_count ms
media_count (stop_ptt ∷ ms) = media_count ms
media_count (ping b ∷ ms) = media_count ms
media_count (set_mode m ∷ ms) = media_count ms

module _ (enc : Encoder) where
  -- What happens to a phone: calls of the user interface, and callbacks.
  pub data Act : Type 0 where
    controls : ℕ → Received → Act
    captures : List enc.Sample → Act
    rounds : ℕ → Act
    changes : SessionState → Act
    takes_haptic : Act
    presses : ℕ → Act
    releases : ℕ → Act
    changes_mode : ℕ → Act

  unfoldable pub act : Act → Phone enc → Phone enc
  unfolding on_control on_capture_frame worker_round on_state_changed take_haptic press release
      change_mode
  act (controls now m) p = on_control enc now m p
  act (captures pcm) p = on_capture_frame enc pcm p
  act (rounds t) p = worker_round enc t p
  act (changes s) p = on_state_changed enc s p
  act takes_haptic p = (take_haptic enc p).1
  act (presses now) p = press enc now p
  act (releases now) p = release enc now p
  act (changes_mode n) p = change_mode enc n p

  abbrev pub acts : List Act → Phone enc → Phone enc
  acts [] p = p
  acts (a ∷ as') p = acts as' (act a p)

  -- The push of a finger.
  abbrev pub IsPress : Act → Type 0
  IsPress (presses now) = Unit
  IsPress _ = ⊥

  -- A PTT_READY from the PC that finds the button pressed.
  abbrev pub IsAcknowledged : Act → Phone enc → Type 0
  IsAcknowledged (controls now ptt_ready) p = p.pressed ≡ true
  IsAcknowledged _ p = ⊥

  send_packed-ptt :
      (r : Option (List ℕ) × MediaSender enc) (p : Phone enc)
      → (send_packed enc r p).ptt_state ≡ p.ptt_state
  send_packed-ptt (none, s) p = refl
  send_packed-ptt (some payload, s) p = refl

  on_capture_frame-ptt :
      (pcm : List enc.Sample) (p : Phone enc) → (on_capture_frame enc pcm p).ptt_state ≡ p.ptt_state
  unfolding on_capture_frame
  on_capture_frame-ptt pcm p = ground (arith, send_packed-ptt (pack_frame enc pcm true p.sender) p)

  round-not-live :
      (t : ℕ) (p : Phone enc) → (worker_round enc t p).ptt_state ≡ live → p.ptt_state ≡ live
  unfolding worker_round retry_pairing send_ping arm_expires release_expires
  round-not-live t p = ground arith

  -- The phone becomes live by nothing but a PTT_READY that finds the button pressed.
  pub act-IsAcknowledged :
      (a : Act) (p : Phone enc)
      → p.ptt_state ≢ live
      → (act a p).ptt_state ≡ live
      → IsAcknowledged a p
  unfolding act on_control on_state_changed take_haptic press release change_mode
  act-IsAcknowledged (controls now ptt_ready) p quiet now_live = ground arith
  act-IsAcknowledged (controls now ptt_stopped) p quiet now_live = ground arith
  act-IsAcknowledged (controls now pong) p quiet now_live = ground arith
  act-IsAcknowledged (controls now (status text)) p quiet now_live = ground arith
  act-IsAcknowledged (controls now (error text)) p quiet now_live = ground arith
  act-IsAcknowledged (controls now other_message) p quiet now_live = ground arith
  act-IsAcknowledged (captures pcm) p quiet now_live =
      absurd (quiet (sym (on_capture_frame-ptt pcm p) ∙ now_live))
  act-IsAcknowledged (rounds t) p quiet now_live = absurd (quiet (round-not-live t p now_live))
  act-IsAcknowledged (changes s) p quiet now_live = ground arith
  act-IsAcknowledged takes_haptic p quiet now_live = absurd (quiet now_live)
  act-IsAcknowledged (presses now) p quiet now_live = ground arith
  act-IsAcknowledged (releases now) p quiet now_live = ground arith
  act-IsAcknowledged (changes_mode n) p quiet now_live = ground arith

  -- While the button is up: nothing but a push presses it, and no frame of the microphone is sent.
  act-quiet :
      (a : Act) (p : Phone enc)
      → p.pressed ≡ false
      → ¬ IsPress a
      → ((act a p).pressed ≡ false) × (media_count (act a p).outbox ≡ media_count p.outbox)
  unfolding act on_control on_capture_frame worker_round retry_pairing send_ping arm_expires
      release_expires on_state_changed take_haptic press release change_mode
  act-quiet (controls now ptt_ready) p up h = ground arith
  act-quiet (controls now ptt_stopped) p up h = (up, refl)
  act-quiet (controls now pong) p up h = ground arith
  act-quiet (controls now (status text)) p up h = (up, refl)
  act-quiet (controls now (error text)) p up h = (up, refl)
  act-quiet (controls now other_message) p up h = (up, refl)
  act-quiet (captures pcm) p up h = ground arith
  act-quiet (rounds t) p up h = ground arith
  act-quiet (changes s) p up h = ground arith
  act-quiet takes_haptic p up h = (up, refl)
  act-quiet (presses now) p up h = absurd (h tt)
  act-quiet (releases now) p up h = ground arith
  act-quiet (changes_mode n) p up h = ground arith

  acts-quiet :
      (as' : List Act) (p : Phone enc)
      → p.pressed ≡ false
      → p.ptt_state ≢ live
      → All (λ a. ¬ IsPress a) as'
      → let p' = acts as' p in
        (p'.pressed ≡ false)
        × (p'.ptt_state ≢ live)
        × (media_count p'.outbox ≡ media_count p.outbox)
  acts-quiet [] p up quiet hs = (up, quiet, refl)
  acts-quiet (a ∷ as') p up quiet (h, hs) =
      let (up', same) = act-quiet a p up h in
      let quiet' : (act a p).ptt_state ≢ live =
        λ now_live. not_acknowledged a p up (act-IsAcknowledged a p quiet now_live) in
      let (up'', quiet'', same') = acts-quiet as' (act a p) up' quiet' hs in
      (up'', quiet'', same' ∙ same)
    where
      not_acknowledged : (b : Act) (q : Phone enc) → q.pressed ≡ false → ¬ IsAcknowledged b q
      not_acknowledged (controls now ptt_ready) q u k = ground arith
      not_acknowledged (controls now ptt_stopped) q u k = k
      not_acknowledged (controls now pong) q u k = k
      not_acknowledged (controls now (status text)) q u k = k
      not_acknowledged (controls now (error text)) q u k = k
      not_acknowledged (controls now other_message) q u k = k
      not_acknowledged (captures pcm) q u k = k
      not_acknowledged (rounds t) q u k = k
      not_acknowledged (changes s) q u k = k
      not_acknowledged takes_haptic q u k = k
      not_acknowledged (presses now) q u k = k
      not_acknowledged (releases now) q u k = k
      not_acknowledged (changes_mode n) q u k = k

  release-up :
      (now : ℕ) (p : Phone enc)
      → let p' = release enc now p in
        (p'.pressed ≡ false)
        × (p'.ptt_state ≢ live)
        × (media_count p'.outbox ≡ media_count p.outbox)
  unfolding release
  release-up now p = ground arith

  -- A release, in any state, closes the microphone: whatever happens after it short of another push,
  -- late acknowledgements and captured frames included, the button stays up, the phone is never
  -- live, and no frame of the microphone is sent.
  pub release_closes :
      (now : ℕ) (as' : List Act) (p : Phone enc)
      → All (λ a. ¬ IsPress a) as'
      → let p' = acts as' (release enc now p) in
        (p'.pressed ≡ false)
        × (p'.ptt_state ≢ live)
        × (media_count p'.outbox ≡ media_count p.outbox)
  release_closes now as' p hs =
      let (up, quiet, same) = release-up now p in
      let (up', quiet', same') = acts-quiet as' (release enc now p) up quiet hs in
      (up', quiet', same' ∙ same)
