-- ===== src/Audio/RingBuffer/Capacity.antt =====
-- ring_buffer.h: `roundUpPow2` ends, and finds the least power of two that is large enough.
use smartmic_windows.Prelude.{
  ℕ, zero, suc, ◌+◌, ◌*◌, ◌%◌, ◌^◌, ◌≤◌, ◌<◌, ◌≡◌, refl, ap, ◌∙◌, ◌⊎◌, inl, inr, some, arith,
  lt→ltb, le→ltb,
}
use native.Mathlib.Decide.{dec_lt}
use native.Mathlib.Nat.{pow-suc, pow-le-pow_right}
use smartmic_windows.Audio.RingBuffer.{round_up}

-- The loop from p = 2^j with fuel for the doublings up to 2^63.
round_up_loop :
    (fuel j v : ℕ)
    → j + fuel ≡ 64
    → 0 < fuel
    → v ≤ 2 ^ 63
    → (j ≡ 0) ⊎ (2 ^ j < 2 * v)
    → (k : ℕ) × (round_up fuel (2 ^ j) v ≡ some (2 ^ k))
      × (k ≤ 63)
      × (v ≤ 2 ^ k)
      × ((k ≡ 0) ⊎ (2 ^ k < 2 * v))
unfolding round_up
round_up_loop zero j v e p h low = absurd (omega arith)
round_up_loop (suc fuel) j v e p h low = elim (dec_lt (2 ^ j) v) [
  | yes more ↦ elim (dec_lt j 63) [
    | yes room ↦
        let doubled : 2 ^ j * 2 % 2 ^ 64 ≡ 2 ^ suc j = omega (
          arith,
          pow-suc 2 j,
          pow-le-pow_right {n = 2} (omega arith) {i = j} {j = 62} (omega arith),
        ) in
        let (k, found, small, enough, least) =
          round_up_loop fuel (suc j) v (omega arith) (omega arith) h
            (inr (omega (arith, pow-suc 2 j))) in
        (k, next_round k more (ap (λ q. round_up fuel q v) doubled ∙ found), small, enough, least)
    | no full ↦
        absurd
          (omega (arith, pow-le-pow_right {n = 2} (omega arith) {i = 63} {j = j} (omega arith)))
  ]
  | no done ↦ (j, rw (le→ltb (2 ^ j) v (omega arith)) refl, omega arith, omega arith, low)
]
  where
    next_round :
        (k : ℕ)
        → 2 ^ j < v
        → round_up fuel (2 ^ j * 2 % 2 ^ 64) v ≡ some (2 ^ k)
        → round_up (suc fuel) (2 ^ j) v ≡ some (2 ^ k)
    next_round k m f = rw (lt→ltb _ _ m) f

-- Sixty-four rounds are enough for every capacity up to 2^63: the loop ends with a power of two
-- that is at least the request and, unless it is 1, less than twice it.
pub round_up_lem :
    (v : ℕ)
    → v ≤ 2 ^ 63
    → (k : ℕ) × (round_up 64 1 v ≡ some (2 ^ k))
      × (k ≤ 63)
      × (v ≤ 2 ^ k)
      × ((k ≡ 0) ⊎ (2 ^ k < 2 * v))
round_up_lem v h = round_up_loop 64 0 v refl (omega arith) h (inl refl)
