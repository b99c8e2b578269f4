-- ===== src/Apps/Phone/Worker.antt =====
-- phone_runtime.cpp: the timeouts of the worker.
use smartmic_windows.Prelude.{ℕ, ◌-◌, ◌≤◌, ◌<◌, ◌^◌, ◌≡◌, false, arith, ltb, if◌then◌else◌}
use smartmic_windows.Media.PhoneSource.{Encoder}
use smartmic_windows.Apps.Phone.{
  Phone, ptt_failed, haptic_failed, authenticated, connecting, releasing, ready, worker_round,
  retry_pairing, send_ping, arm_expires, release_expires, arm_timeout_ms, release_timeout_ms,
}

module _ (enc : Encoder) where
  -- A round of the worker on a paired phone that waits for the PC, with a clock that is not behind
  -- the push or the release: arming fails exactly when more than its time has passed, and then the
  -- button counts as up; a release ends exactly when more than its own time has passed; and until
  -- then the phone stays as it is.
  pub rounds_expire :
      (t : ℕ) (p : Phone enc)
      → p.conn_state ≡ authenticated
      → t < 2 ^ 64
      → let p' = worker_round enc t p in
        (p.ptt_state ≡ connecting
          → p.pressed_at_ms ≤ t
          → (p'.ptt_state
              ≡ (if ltb arm_timeout_ms (t - p.pressed_at_ms) then ptt_failed else connecting))
            × (p'.pressed
                ≡ (if ltb arm_timeout_ms (t - p.pressed_at_ms) then false else p.pressed)))
        × (p.ptt_state ≡ releasing
            → p.released_at_ms ≤ t
            → (p'.ptt_state
                ≡ (if ltb release_timeout_ms (t - p.released_at_ms) then ready else releasing))
              × (p'.pressed ≡ p.pressed))
  unfolding worker_round retry_pairing send_ping arm_expires release_expires
  rounds_expire t p paired word = ground arith

  -- A round of the worker on a paired phone that read the clock before the push, by less than 2 ^ 63:
  -- the difference of the two times wraps around, and arming fails at once.
  pub round_before_push_fails :
      (t : ℕ) (p : Phone enc)
      → p.conn_state ≡ authenticated
      → p.ptt_state ≡ connecting
      → t < p.pressed_at_ms
      → p.pressed_at_ms < 2 ^ 63
      → let p' = worker_round enc t p in
        (p'.ptt_state ≡ ptt_failed) × (p'.pressed ≡ false) × (p'.haptic ≡ haptic_failed)
  unfolding worker_round retry_pairing send_ping arm_expires release_expires
  round_before_push_fails t p paired waits early word = ground arith
