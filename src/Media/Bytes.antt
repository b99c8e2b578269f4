-- ===== src/Media/Bytes.antt =====
-- Counters as eight little-endian bytes, as secure_channel.cpp writes and reads them.
use smartmic_windows.Prelude.{
  ℕ, zero, suc, ◌+◌, ◌*◌, ◌/◌, ◌%◌, ◌<◌, ◌^◌, ◌≡◌, refl, ap, List, [], ◌∷◌, arith, length,
}

abbrev pub le_bytes : ℕ → ℕ → List ℕ
le_bytes zero c = []
le_bytes (suc n) c = c % 256 ∷ le_bytes n (c / 256)

abbrev pub le_value : List ℕ → ℕ
le_value [] = 0
le_value (b ∷ bs) = b + 256 * le_value bs

-- 256 to the power `n`.
abbrev pub bound : ℕ → ℕ
bound zero = 1
bound (suc n) = 256 * bound n

pub length-le_bytes : (n c : ℕ) → length (le_bytes n c) ≡ n
length-le_bytes zero c = refl
length-le_bytes (suc n) c = ap suc (length-le_bytes n (c / 256))

pub le_value-le_bytes : (n c : ℕ) → c < bound n → le_value (le_bytes n c) ≡ c
le_value-le_bytes zero c h = omega arith
le_value-le_bytes (suc n) c h =
    let rest = le_value-le_bytes n (c / 256) (omega arith) in omega (arith, rest)

pub word_bound : (c : ℕ) → c < 2 ^ 64 → c < bound 8
word_bound c h = h
