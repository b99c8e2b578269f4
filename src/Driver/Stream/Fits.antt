-- ===== src/Driver/Stream/Fits.antt =====
-- minwavestream.cpp: the buffer holds whole periods, and a tick writes inside it.
use smartmic_windows.Prelude.{
  ℕ, zero, suc, ◌+◌, ◌-◌, ◌*◌, ◌/◌, ◌%◌, ◌^◌, ◌≤◌, ◌<◌, ◌≡◌, ◌≢◌, ◌⊎◌, inl, inr, refl, ap, List, [],
  ◌∷◌, ◌++◌, Option, none, some, arith, length, take, drop, leb, if◌then◌else◌, replicate, add32,
  min, length-append, length-replicate, length-take, length-drop, Bool-cases, ◌∙◌,
}
use smartmic_windows.Media.Bytes.{le_bytes, length-le_bytes}
use native.Mathlib.Decide.{dec_lt}
use native.Mathlib.Nat.{mul-le-mul_right}
use smartmic_windows.Cells.{Memory, copy_out}
use smartmic_windows.Cells.Window.{length-window, copy_out-window}
use smartmic_windows.Driver.Ring.{Ring, read, read_live, span, ring_frames}
use smartmic_windows.Driver.Stream.{Stream, bytes_of, poke, period, tick_live}

-- Sizes of a buffer of `n` periods, of which `j` lie before the offset; no period at all where
-- its size is 0.
pub record IsPeriodic (bytes size offset : ℕ) : Type 0 where
  pub periods : ℕ
  pub done : ℕ
  pub whole : bytes ≡ periods * size
  pub at_period : offset ≡ done * size
  pub before_end : done < periods
  pub word : bytes < 2 ^ 32

-- The period at the offset ends inside the buffer.
pub period_inside : {bytes size offset : ℕ} → IsPeriodic bytes size offset → offset + size ≤ bytes
period_inside {size} p = omega (
  arith,
  p.whole,
  p.at_period,
  mul-le-mul_right {m = suc p.done} {n = p.periods} size (omega (arith, p.before_end)),
)

-- The offset behind it is at the start of a period again.
pub next-IsPeriodic :
    {bytes size offset : ℕ}
    → size ≢ 0
    → IsPeriodic bytes size offset
    → IsPeriodic bytes size (if leb bytes (add32 offset size) then 0 else add32 offset size)
next-IsPeriodic {bytes} {size} {offset} h p = elim (Bool-cases (leb bytes (add32 offset size))) [
  | inl end ↦ rw end (record {
    periods = p.periods;
    done = 0;
    whole = p.whole;
    at_period = omega arith;
    before_end = omega (arith, p.before_end);
    word = p.word;
  })
  | inr inside ↦ rw inside (record {
    periods = p.periods;
    done = suc p.done;
    whole = p.whole;
    at_period = omega (arith, step, p.at_period);
    before_end = elim (dec_lt (suc p.done) p.periods) [
      | yes lt ↦ lt
      | no not_lt ↦
          let last : suc p.done ≡ p.periods = omega (arith, p.before_end) in
          absurd (ground (arith, step, p.whole, p.at_period, ap (λ (t : ℕ). t * size) last, inside))
    ];
    word = p.word;
  })
]
  where
    step : add32 offset size ≡ offset + size
    step = omega (arith, period_inside p, p.word)

length-poke :
    (off : ℕ) (bs b : List ℕ) → length bs + off ≤ length b → length (poke off bs b) ≡ length b
length-poke off bs b h =
    let drops = length-drop (length bs + off) b in
    let outer = length-append (take off b) (bs ++ drop (length bs + off) b) in
    let inner = length-append bs (drop (length bs + off) b) in
    omega (arith, outer, inner, drops, length-take off b)

pub length-bytes_of : (ws : List ℕ) → length (bytes_of ws) ≡ 2 * length ws
length-bytes_of [] = refl
length-bytes_of (w ∷ ws) =
    let bytes = length-le_bytes 2 w in
    omega (arith, length-append (le_bytes 2 w) (bytes_of ws), bytes, length-bytes_of ws)

length-copy_out :
    (m : Memory ℕ) (at n : ℕ) → n ≤ ring_frames → length (copy_out m ring_frames at n) ≡ n
length-copy_out m at n h = rw (copy_out-window m 13 at n h) (length-window m ring_frames at n)

available_le : (r : Ring) → (span r).available ≤ ring_frames
unfolding span
available_le r = ground arith

length-read_live : (r : Ring) (n : ℕ) → length (read_live r n).1 ≡ n
unfolding read_live
length-read_live r n =
    let real = min n (span r).available in
    let copied = copy_out r.payload ring_frames (span r).start real in
    let count : length copied ≡ real =
      length-copy_out r.payload (span r).start real (omega (arith, available_le r)) in
    omega (
      arith,
      count,
      length-append copied (replicate (n - real) 0),
      length-replicate (n - real) zero,
    )

-- `Read` writes no more frames than it was asked for.
pub length-read : (now : ℕ) (r : Ring) (n : ℕ) → length (read now r n).1 ≤ n
unfolding read
length-read now r n =
    let silent = length-replicate (n * 2 % 2 ^ 32 / 2) zero in
    ground (arith, silent, length-read_live r n)

length-period : (now bytes : ℕ) (r : Option Ring) → length (period now bytes r).0 ≤ bytes
unfolding period
length-period now bytes none = omega (arith, length-replicate bytes zero)
length-period now bytes (some r) =
    omega (arith, length-bytes_of (read now r (bytes / 2)).1, length-read now r (bytes / 2))

-- The buffer's length is the one that is kept of it, and it is parted into whole periods.
abbrev pub Fits : Option (List ℕ) → ℕ → ℕ → ℕ → Type 0
Fits none bytes size offset = Unit
Fits (some b) bytes size offset = (length b ≡ bytes) × ((size ≡ 0) ⊎ IsPeriodic bytes size offset)

pub tick_live-Fits :
    (now : ℕ) (b : List ℕ) (s : Stream)
    → s.bytes_per_notification ≢ 0
    → Fits (some b) s.buffer_bytes s.bytes_per_notification s.write_offset
    → let s' = (tick_live now b s).1 in
      Fits s'.buffer s'.buffer_bytes s'.bytes_per_notification s'.write_offset
unfolding tick_live
tick_live-Fits now b s h (whole, inl empty) = absurd (h empty)
tick_live-Fits now b s h (whole, inr p) =
    let written = (period now s.bytes_per_notification s.ring).0 in
    let short = length-period now s.bytes_per_notification s.ring in
    (
      length-poke s.write_offset written b (omega (arith, whole, short, period_inside p)) ∙ whole,
      inr (next-IsPeriodic h p),
    )
