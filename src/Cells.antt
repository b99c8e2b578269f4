-- ===== src/Cells.antt =====
-- Memory under a ring: what `memcpy` does to it, and the two-segment copies into and out of a
-- ring whose capacity is a power of two (copyIn and copyOut of
-- windows/audio-service/include/smartmic/ring_buffer.h; the driver's ring copies the same way).
pub mod Mask
pub mod Window
use smartmic_windows.Prelude.{
  ℕ, zero, suc, ◌-◌, List, [], ◌∷◌, ◌++◌, bit_and, leb, ltb, if◌then◌else◌, get_or, length, take,
  drop,
}

-- An array: an element for each index. Which indices are touched is proved in `Window`.
abbrev pub Memory : Type 0 → Type 0
Memory A = ℕ → A

-- The first segment ends at the capacity.
abbrev pub first_segment : ℕ → ℕ → ℕ → ℕ
first_segment capacity off count = if ltb count (capacity - off) then count else capacity - off

module _ {A : Type 0} where
  -- memcpy into the array at `off`.
  abbrev pub store : Memory A → ℕ → List A → Memory A
  store m off src i = if leb off i then get_or src (i - off) (m i) else m i

  -- memcpy of `n` elements out of the array from `off` on.
  abbrev pub load : Memory A → ℕ → ℕ → List A
  load m off zero = []
  load m off (suc n) = m off ∷ load m (suc off) n

  -- The body of `copyIn` below the line that computes `off`.
  abbrev pub copy_in_at : Memory A → ℕ → ℕ → List A → Memory A
  copy_in_at m capacity off src =
      let count = length src in
      let first = first_segment capacity off count in
      let m' = store m off (take first src) in
      if ltb first count then store m' 0 (drop first src) else m'

  -- `copyIn(at, src, count)`, with `mask_` for `capacity_ - 1`.
  unfoldable pub copy_in : Memory A → ℕ → ℕ → List A → Memory A
  copy_in m capacity at src = copy_in_at m capacity (bit_and at (capacity - 1)) src

  -- The body of `copyOut` below the line that computes `off`.
  abbrev pub copy_out_at : Memory A → ℕ → ℕ → ℕ → List A
  copy_out_at m capacity off count =
      let first = first_segment capacity off count in
      let head = load m off first in
      if ltb first count then head ++ load m 0 (count - first) else head

  -- `copyOut(at, dst, count)`: what is written to `dst`.
  unfoldable pub copy_out : Memory A → ℕ → ℕ → ℕ → List A
  copy_out m capacity at count = copy_out_at m capacity (bit_and at (capacity - 1)) count
