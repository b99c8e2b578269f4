-- ===== src/Cells/Mask.antt =====
-- `x & (2^k - 1)` is `x % 2^k`, for every k.
use smartmic_windows.Prelude.{
  ℕ, zero, suc, ◌+◌, ◌-◌, ◌*◌, ◌/◌, ◌%◌, ◌^◌, ◌≤◌, ◌<◌, ◌≡◌, refl, sym, ◌∙◌, ap, min, bit_and,
  arith,
}
use Prim.Native.Nat.{digits, bit_and-bitwise}
use mathlib.Core.Path.{ap₂}
use native.Mathlib.Nat.{
  pow-suc, mod-lt, div-add-mod, add-mul-mod_self_left, mod-eq_of_lt, mod-add-mod, mod-eq-sub-mod,
}

abbrev digits_of : ℕ → ℕ → ℕ → ℕ
digits_of n a b = digits (λ b. zero) min n a b

-- Any fuel from the number on gives the same digits.
digits_stable : (n m a b : ℕ) → a ≤ n → a ≤ m → digits_of n a b ≡ digits_of m a b
digits_stable zero zero a b p q = refl
digits_stable zero (suc m) zero b p q = refl
digits_stable zero (suc m) (suc a) b p q = absurd (omega arith)
digits_stable (suc n) zero zero b p q = refl
digits_stable (suc n) zero (suc a) b p q = absurd (omega arith)
digits_stable (suc n) (suc m) zero b p q = refl
digits_stable (suc n) (suc m) (suc a) b p q =
    omega (arith, digits_stable n m (suc a / 2) (b / 2) (omega arith) (omega arith))

bit_and_halves : (a b : ℕ) → bit_and a b ≡ bit_and (a / 2) (b / 2) * 2 + min (a % 2) (b % 2)
bit_and_halves zero b = omega (arith, bit_and-bitwise 0 b, bit_and-bitwise 0 (b / 2))
bit_and_halves (suc a) b = omega (
  arith,
  bit_and-bitwise (suc a) b,
  bit_and-bitwise (suc a / 2) (b / 2),
  digits_stable a (suc a / 2) (suc a / 2) (b / 2) (omega arith) (omega arith),
)

bit_and-zero : (n a : ℕ) → a ≤ n → bit_and a 0 ≡ 0
bit_and-zero n zero h = refl
bit_and-zero zero (suc a) h = absurd (omega arith)
bit_and-zero (suc n) (suc a) h =
    omega (arith, bit_and_halves (suc a) 0, bit_and-zero n (suc a / 2) (omega arith))

pub pow_pos : (k : ℕ) → 0 < 2 ^ k
pow_pos zero = omega arith
pow_pos (suc k) = omega (arith, pow-suc 2 k, pow_pos k)

-- A remainder by an even number from the one by its half.
mod-double : (a m : ℕ) → 0 < m → (a / 2 % m) * 2 + a % 2 ≡ a % (m * 2)
mod-double a m h = sym (
    ap (λ n. n % (m * 2)) split
    ∙ add-mul-mod_self_left low (m * 2) (a / 2 / m)
    ∙ mod-eq_of_lt small)
  where
    low : ℕ
    low = (a / 2 % m) * 2 + a % 2

    split : a ≡ low + m * 2 * (a / 2 / m)
    split = omega (arith, div-add-mod (a / 2) m)

    small : low < m * 2
    small = omega (arith, mod-lt (a / 2) h)

pub mask-mod : (k a : ℕ) → bit_and a (2 ^ k - 1) ≡ a % 2 ^ k
mask-mod zero a = omega (arith, bit_and-zero a a (omega arith))
mask-mod (suc k) a =
    bit_and_halves a (2 ^ suc k - 1)
    ∙ ap₂ (λ x y. bit_and (a / 2) x * 2 + min (a % 2) y) half odd
    ∙ omega
        (arith, mask-mod k (a / 2), mod-double a (2 ^ k) (pow_pos k), ap (λ n. a % n) (pow-suc 2 k))
  where
    half : (2 ^ suc k - 1) / 2 ≡ 2 ^ k - 1
    half = omega (arith, pow-suc 2 k, pow_pos k)

    odd : (2 ^ suc k - 1) % 2 ≡ 1
    odd = omega (arith, pow-suc 2 k, pow_pos k)

-- The remainder of a sum, where the step stays below the next multiple and where it passes it.
pub mod-add_small : (a b c : ℕ) → a % c + b < c → (a + b) % c ≡ a % c + b
mod-add_small a b c h = sym (mod-add-mod a c b) ∙ mod-eq_of_lt h

pub mod-add_wrap : (a b c : ℕ) → c ≤ a % c + b → a % c + b < c + c → (a + b) % c ≡ a % c + b - c
mod-add_wrap a b c h l =
    sym (mod-add-mod a c b) ∙ mod-eq-sub-mod h ∙ mod-eq_of_lt {n = a % c + b - c} (omega arith)

pub pow-add : (k j : ℕ) → 2 ^ (k + j) ≡ 2 ^ k * 2 ^ j
pow-add k zero = let e : k + zero ≡ k = omega arith in rw e (omega arith)
pow-add k (suc j) =
    let e : k + suc j ≡ suc (k + j) = omega arith in
    rw (e, pow-suc 2 (k + j), pow-suc 2 j, pow-add k j) (omega arith)

-- A wrapped counter has the same place in a ring as the unbounded one.
pub mod-wrapped : (k a : ℕ) → k ≤ 64 → a % 2 ^ 64 % 2 ^ k ≡ a % 2 ^ k
mod-wrapped k a h = sym (
    ap (λ n. n % 2 ^ k) split
    ∙ add-mul-mod_self_left (a % 2 ^ 64) (2 ^ k) (2 ^ (64 - k) * (a / 2 ^ 64)))
  where
    whole : 2 ^ 64 ≡ 2 ^ k * 2 ^ (64 - k)
    whole = let e : 64 ≡ k + (64 - k) = omega arith in ap (λ n. 2 ^ n) e ∙ pow-add k (64 - k)

    split : a ≡ a % 2 ^ 64 + 2 ^ k * (2 ^ (64 - k) * (a / 2 ^ 64))
    split = omega (arith, ap (λ (n : ℕ). n * (a / 2 ^ 64)) whole, div-add-mod a (2 ^ 64))
