-- ===== src/Audio/RingBuffer.antt =====
-- windows/audio-service/include/smartmic/ring_buffer.h, with each call run to its end: the atomic
-- counters are plain fields, and `read` and `write` are not interleaved with one another.
pub mod Capacity
pub mod Refine
use smartmic_windows.Prelude.{
  ℕ, zero, suc, ◌-◌, ◌*◌, ◌%◌, ◌^◌, List, [], ◌++◌, Option, none, some, ◌==◌, ltb, if◌then◌else◌,
  length, drop, replicate, add64, sub64,
}
use smartmic_windows.Cells.{Memory, copy_in, copy_out}

-- `roundUpPow2`: `while (p < v) p <<= 1`, with fuel.
unfoldable pub round_up : ℕ → ℕ → ℕ → Option ℕ
round_up zero p v = none
round_up (suc fuel) p v =
    let rest = round_up fuel (p * 2 % 2 ^ 64) v in if ltb p v then rest else some p

-- The class template. `mask_` is `capacity_ - 1`, and is written so where it is used.
pub record RingBuffer (A : Type 0) : Type 0 where
  pub capacity : ℕ
  pub cells : Memory A
  pub write_index : ℕ
  pub read_index : ℕ
  pub overruns : ℕ
  pub underruns : ℕ

module _ {A : Type 0} where
  -- The constructor, for a capacity that is rounded up to `capacity`; `fill` is T's initial value.
  unfoldable pub fresh : ℕ → A → RingBuffer A
  fresh capacity fill = record {
    capacity = capacity;
    cells = λ i. fill;
    write_index = 0;
    read_index = 0;
    overruns = 0;
    underruns = 0;
  }

  abbrev pub available : RingBuffer A → ℕ
  available r = sub64 r.write_index r.read_index

  abbrev pub free_space : RingBuffer A → ℕ
  free_space r = sub64 r.capacity (available r)

  -- `write` below the two tests on `count`: `src` is what is left of the input.
  unfoldable pub write_kept : RingBuffer A → List A → ℕ → ℕ × RingBuffer A
  write_kept r src dropped =
      let count = length src in
      let needed = add64 (available r) count in
      let overflow = if ltb r.capacity needed then needed - r.capacity else 0 in
      let total = add64 dropped overflow in
      (
        total,
        record r {
          read_index = if ltb r.capacity needed then add64 r.read_index overflow else r.read_index;
          cells = copy_in r.cells r.capacity r.write_index src;
          write_index = add64 r.write_index count;
          overruns = if total == 0 then r.overruns else add64 r.overruns total;
        },
      )

  -- Returns the number of items dropped.
  unfoldable pub write : RingBuffer A → List A → ℕ × RingBuffer A
  write r src =
      if length src == 0
      then (0, r)
      else if ltb r.capacity (length src)
      then write_kept r (drop (length src - r.capacity) src) (length src - r.capacity)
      else write_kept r src 0

  -- Returns what was written to `dst`; its length is the result of the source's function.
  unfoldable pub read : RingBuffer A → ℕ → List A × RingBuffer A
  read r count =
      let avail = available r in
      let n = if ltb avail count then avail else count in
      (
        copy_out r.cells r.capacity r.read_index n,
        record r {
          read_index = add64 r.read_index n;
          underruns = if ltb n count then add64 r.underruns (count - n) else r.underruns;
        },
      )

  -- Always `count` items; the result of the source's function is `length` of what was read.
  unfoldable pub read_or_silence : A → RingBuffer A → ℕ → List A × RingBuffer A
  read_or_silence silence r count =
      let (items, r') = read r count in (items ++ replicate (count - length items) silence, r')

  unfoldable pub clear : RingBuffer A → RingBuffer A
  clear r = record r { read_index = r.write_index }
