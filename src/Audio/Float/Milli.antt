-- ===== src/Audio/Float/Milli.antt =====
-- A concrete arithmetic that meets the laws of `Float`: whole numbers of thousandths, with gains
-- that are linear in the position.
use smartmic_windows.Prelude.{ℕ, ◌+◌, ◌*◌, ◌/◌, ◌≤◌, true, false, ◌≡◌, refl, arith, if◌then◌else◌}
use smartmic_windows.Prelude.Int.{
  ℤ, pos, negsuc, pos_part, neg_part, sub_ℕ, ◌+ℤ◌, ◌-ℤ◌, ◌*ℤ◌, ltb_ℤ,
}
use smartmic_windows.Audio.Float.{Float, FloatLaws, InUnit}

abbrev scale_down : ℤ → ℕ → ℤ
scale_down a k = sub_ℕ (pos_part a / k) (neg_part a / k)

abbrev pub milli : Float
milli = record {
  F = ℤ;
  zero = pos 0;
  one = pos 1000;
  half = pos 500;
  add = ◌+ℤ◌;
  sub = ◌-ℤ◌;
  mul = λ a b. scale_down (a *ℤ b) 1000;
  div = λ a b. scale_down (a *ℤ pos 1000) (pos_part b);
  neg = λ a. pos 0 -ℤ a;
  abs = λ a. pos (pos_part a + neg_part a);
  cos = λ a. pos 1000 -ℤ a;
  sin = λ a. a;
  half_pi = pos 1000;
  of_ℕ = λ n. pos (n * 1000);
  ceil = λ a. (pos_part a + 999) / 1000;
  is_nan = λ a. false;
  lt = ltb_ℤ;
  le = λ a b. if ltb_ℤ b a then false else true;
  eq = λ a b. if ltb_ℤ a b then false else if ltb_ℤ b a then false else true;
  ceiling = pos 999;
}

scaled_le : (n d : ℕ) → d ≤ 1000 → (n * 1000 * d / 1000 + 999) / 1000 ≤ n
scaled_le n d h = grind arith

scaled_product : (m d : ℕ) → pos_part (scale_down (pos m *ℤ pos d) 1000) ≡ m * d / 1000
scaled_product m d = ground arith

distance_le :
    (a b : ℕ)
    → InUnit milli (pos a)
    → InUnit milli (pos b)
    → pos_part (pos a -ℤ pos b) + neg_part (pos a -ℤ pos b) ≤ 1000
distance_le a b ha hb = ground arith

milli_ceil :
    (n : ℕ) (a b : ℤ)
    → InUnit milli a
    → InUnit milli b
    → milli.ceil (milli.mul (milli.of_ℕ n) (milli.abs (milli.sub a b))) ≤ n
milli_ceil n (pos a) (pos b) ha hb =
    let d = pos_part (pos a -ℤ pos b) + neg_part (pos a -ℤ pos b) in
    rw (scaled_product (n * 1000) d) (scaled_le n d (distance_le a b ha hb))
milli_ceil n (pos a) (negsuc b) ha hb = absurd (ground arith)
milli_ceil n (negsuc a) b ha hb = absurd (ground arith)

pub milli-laws : FloatLaws milli
milli-laws = record {
  zero_number = refl;
  one_number = refl;
  ceiling_number = refl;
  neg_number = refl;
  add_number = λ a b ha hb. refl;
  div_number = λ a b n ha hb hn. refl;
  le_of_not_lt = λ a b ha hb h. rw h refl;
  zero_zero = refl;
  one_zero = refl;
  one_one = refl;
  ceiling_ceiling = refl;
  ceiling_neg = refl;
  neg_neg = refl;
  ceil_le = λ n a b h. milli_ceil n a b;
}
