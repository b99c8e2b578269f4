-- ===== src/Audio/Float.antt =====
-- The floating-point arithmetic that the audio path computes with. It is the processor's, so it is
-- a parameter: its elements are all values of `float`, with those that are not numbers, and
-- `FloatLaws` lists what is used of them.
pub mod Milli
use smartmic_windows.Prelude.{ℕ, Bool, true, false, ◌≤◌, ◌<◌, ◌^◌, ◌≡◌, if◌then◌else◌}

pub record Float : Type 1 where
  pub F : Type 0
  pub zero : F
  pub one : F
  pub half : F
  pub add : F → F → F
  pub sub : F → F → F
  pub mul : F → F → F
  pub div : F → F → F
  pub neg : F → F
  pub abs : F → F
  pub cos : F → F
  pub sin : F → F
  pub half_pi : F
  pub of_ℕ : ℕ → F
  -- `static_cast<size_t>(std::ceil(x))`.
  pub ceil : F → ℕ
  -- `std::isnan(a)`.
  pub is_nan : F → Bool
  -- `a < b`, `a <= b` and `a == b`, which are false where one of them is not a number.
  pub lt : F → F → Bool
  pub le : F → F → Bool
  pub eq : F → F → Bool
  -- `kCeiling`, 0.999f.
  pub ceiling : F

-- `std::clamp(v, 0.0f, 1.0f)`.
abbrev pub clamp01 : (f : Float) → f.F → f.F
clamp01 f v = if f.lt v f.zero then f.zero else if f.lt f.one v then f.one else v

abbrev pub InUnit : (f : Float) → f.F → Type 0
InUnit f v = (f.is_nan v ≡ false) × (f.lt v f.zero ≡ false) × (f.lt f.one v ≡ false)

-- `ceil_le`: for a and b between 0 and 1, n * |a - b| rounds to at most n, and `ceil` keeps it
-- there, as long as n is represented exactly. The sum of a number that is finite and any number is a
-- number, and so is the quotient of such a difference by a count that is not zero.
pub record FloatLaws (f : Float) : Type 0 where
  pub zero_number : f.is_nan f.zero ≡ false
  pub one_number : f.is_nan f.one ≡ false
  pub ceiling_number : f.is_nan f.ceiling ≡ false
  pub neg_number : f.is_nan (f.neg f.ceiling) ≡ false
  pub add_number : (a b : f.F) → InUnit f a → f.is_nan b ≡ false → f.is_nan (f.add a b) ≡ false
  pub div_number :
      (a b : f.F) (n : ℕ)
      → InUnit f a
      → InUnit f b
      → 0 < n
      → f.is_nan (f.div (f.sub a b) (f.of_ℕ n)) ≡ false
  pub le_of_not_lt :
      (a b : f.F) → f.is_nan a ≡ false → f.is_nan b ≡ false → f.lt b a ≡ false → f.le a b ≡ true
  pub zero_zero : f.lt f.zero f.zero ≡ false
  pub one_zero : f.lt f.one f.zero ≡ false
  pub one_one : f.lt f.one f.one ≡ false
  pub ceiling_ceiling : f.lt f.ceiling f.ceiling ≡ false
  pub ceiling_neg : f.lt f.ceiling (f.neg f.ceiling) ≡ false
  pub neg_neg : f.lt (f.neg f.ceiling) (f.neg f.ceiling) ≡ false
  pub ceil_le :
      (n : ℕ) (a b : f.F)
      → n ≤ 2 ^ 24
      → InUnit f a
      → InUnit f b
      → f.ceil (f.mul (f.of_ℕ n) (f.abs (f.sub a b))) ≤ n
