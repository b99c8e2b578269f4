-- ===== src/Driver/Tests.antt =====
-- The driver's ring and claim on concrete data.
use smartmic_windows.Prelude.{
  ◌+◌, ◌-◌, ◌≤◌, Option, true, false, ◌≡◌, ◌≢◌, refl, List, [], ◌∷◌, ◌++◌, All, arith, length,
  replicate, add64,
}
use smartmic_windows.Cells.{copy_out}
use smartmic_windows.Cells.Window.{window}
use smartmic_windows.Driver.Ring.{Ring, read, read_live, producer_alive, span, ring_frames}
use smartmic_windows.Driver.Ring.Reads.{read_is_safe}
use smartmic_windows.Driver.Ring.Writes.{InStep}
use smartmic_windows.Driver.Ring.Starved.{
  Call, Ahead, Silent, calls, starved_for_good, writes, reads,
}
use smartmic_windows.Driver.Claim.{Mapping, map_for}
use smartmic_windows.Driver.Status.{success}

-- Three frames wait, across the end of the payload.
abbrev pub three_waiting : Ring
three_waiting = record {
  is_ready = true;
  payload = λ i. i;
  write_index = 8194;
  producer_heartbeat = 1000;
  read_index = 8191;
  underrun_count = 0;
  overrun_count = 0;
  frames_delivered = 0;
  stream_open = true;
}

pub three_waiting-InStep : InStep three_waiting
three_waiting-InStep = record {
  ready = refl;
  order = omega arith;
  fits = omega arith;
  word = omega arith;
}

pub alive : producer_alive 2000 three_waiting ≡ true
unfolding producer_alive
alive = refl

read_run : (read 2000 three_waiting 5).1 ≡ 8191 ∷ 0 ∷ 1 ∷ 0 ∷ 0 ∷ []
unfolding read read_live span producer_alive copy_out
read_run = refl

read_is_safe_example :
    let (real, frame, r') = read 2000 three_waiting 5 in
    let start = (span three_waiting).start in
    (frame ≡ window three_waiting.payload ring_frames start real ++ replicate (5 - real) 0)
    × (length frame ≡ 5)
    × (real ≤ ring_frames)
    × (real ≢ 0 → start + real ≤ 8194)
    × (r'.read_index ≡ add64 start 5)
read_is_safe_example =
    read_is_safe 2000 three_waiting 5 refl alive (omega arith) (omega arith) (omega arith)

-- The consumer has run 1000 frames ahead.
abbrev starving : Ring
starving = record {
  is_ready = true;
  payload = λ i. i;
  write_index = 48000;
  producer_heartbeat = 1000;
  read_index = 49000;
  underrun_count = 0;
  overrun_count = 0;
  frames_delivered = 0;
  stream_open = true;
}

abbrev a_tick : List Call
a_tick = writes 1100 (5 ∷ 6 ∷ []) ∷ reads 1200 4 ∷ []

starved_for_good_example :
    let (outs, r') = calls a_tick starving in Ahead 960 48000 r' × All Silent outs
starved_for_good_example =
    starved_for_good 960 48000 a_tick starving
      (record { ready = refl; written = refl; past = omega arith }) (omega arith)
      (omega arith, (omega arith, tt)) (omega arith)

abbrev unclaimed : Mapping
unclaimed = record { has_mdl = true; claimed = false; user_va = false; client = Option.none }

first_maps : (map_for 10 true unclaimed).0 ≡ success
unfolding map_for
first_maps = refl
