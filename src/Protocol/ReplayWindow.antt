-- ===== src/Protocol/ReplayWindow.antt =====
-- shared/protocol/include/smartmic/protocol/replay_window.h: the sliding window over a session's
-- sequence numbers. A bitset is a function to Bool that is false from its width on.
pub mod History
use smartmic_windows.Prelude.{
  ℕ, zero, suc, ◌-◌, Bool, true, false, ◌&&◌, not, leb, ltb, ◌==◌, if◌then◌else◌,
}

pub record ReplayWindow : Type 0 where
  pub initialised : Bool
  pub highest : ℕ
  pub seen : ℕ → Bool

-- `bitset::set`.
abbrev pub set_bit : ℕ → (ℕ → Bool) → ℕ → Bool
set_bit k bits i = if i == k then true else bits i

-- `bitset::operator<<=`.
abbrev pub shift_left : ℕ → ℕ → (ℕ → Bool) → ℕ → Bool
shift_left width k bits i = if ltb i k then false else if ltb i width then bits (i - k) else false

abbrev pub no_bits : ℕ → Bool
no_bits i = false

-- `reset`, and a window that has just been built.
abbrev pub reset : ReplayWindow
reset = record { initialised = false; highest = 0; seen = no_bits }

-- The three ways to accept a number: the first of all, a new highest, and one in the window.
abbrev pub started : ℕ → ReplayWindow
started seq = record { initialised = true; highest = seq; seen = set_bit 0 no_bits }

abbrev pub moved_up : ℕ → ReplayWindow → ℕ → ReplayWindow
moved_up width w seq =
    let shift = seq - w.highest in
    record w {
      highest = seq;
      seen = set_bit 0 (if leb width shift then no_bits else shift_left width shift w.seen);
    }

abbrev pub marked : ReplayWindow → ℕ → ReplayWindow
marked w seq = record w { seen = set_bit (w.highest - seq) w.seen }

unfoldable pub accept : ℕ → ReplayWindow → ℕ → Bool × ReplayWindow
accept width w seq =
    if not w.initialised
    then (true, started seq)
    else if ltb w.highest seq
    then (true, moved_up width w seq)
    else if leb width (w.highest - seq)
    then (false, w)
    else if w.seen (w.highest - seq)
    then (false, w)
    else (true, marked w seq)
