-- ===== src/Media/JitterBuffer.antt =====
-- shared/media/src/jitter_buffer.cpp and jitter_buffer.h. The queue, a std::map, is an association
-- list in the order of its keys. The smoothing in floating point and the Opus decoder are parameters.
pub mod Queue
pub mod Account
pub mod Order
use smartmic_windows.Prelude.{
  ℕ, zero, suc, ◌+◌, ◌-◌, ◌*◌, ◌/◌, ◌%◌, ◌^◌, Bool, true, false, ◌&&◌, ◌||◌, not, List, [], ◌∷◌,
  Option, none, some, length, leb, ltb, ◌==◌, if◌then◌else◌, add32, add64, sub32, sub64, min, max,
}

-- The arithmetic on `double` in `adapt`: the estimate moved towards the deviation of an interval from
-- a frame, and three times the estimate rounded up.
pub record Estimator : Type 1 where
  pub J : Type 0
  pub none_yet : J
  pub smooth : J → ℕ → J
  pub three_times : J → ℕ

-- `OpusDecoderWrapper`: `decode` says whether it succeeded; both give a frame of samples.
pub record Decoder : Type 1 where
  pub D : Type 0
  pub Sample : Type 0
  pub quiet : Sample
  pub decode : List ℕ → ℕ → D → Bool × List Sample × D
  pub conceal : ℕ → D → List Sample × D

abbrev pub frame_ms : ℕ
frame_ms = 20

abbrev pub frame_samples : ℕ
frame_samples = 960

pub record JitterConfig : Type 0 where
  pub target_ms : ℕ
  pub min_ms : ℕ
  pub max_ms : ℕ
  pub prefill_ms : ℕ
  pub stall_ms : ℕ
  pub adaptive : Bool

-- The counters of JitterStats that the buffer keeps.
pub record JitterStats : Type 0 where
  pub pushed : ℕ
  pub popped : ℕ
  pub concealed : ℕ
  pub duplicates : ℕ
  pub reordered : ℕ
  pub too_late : ℕ
  pub overflow : ℕ

pub record Entry : Type 0 where
  pub payload : List ℕ
  pub arrival_ms : ℕ

abbrev pub Queue : Type 0
Queue = List (ℕ × Entry)

abbrev pub find : ℕ → Queue → Option Entry
find seq [] = none
find seq ((k, e) ∷ q) = if seq == k then some e else find seq q

abbrev pub count : ℕ → Queue → Bool
count seq [] = false
count seq ((k, e) ∷ q) = if seq == k then true else count seq q

-- `emplace` of a key that is not there.
abbrev pub emplace : ℕ → Entry → Queue → Queue
emplace seq e [] = (seq, e) ∷ []
emplace seq e ((k, x) ∷ q) =
    let rest = emplace seq e q in if ltb seq k then (seq, e) ∷ (k, x) ∷ q else (k, x) ∷ rest

-- `erase` of the entry with a key.
abbrev pub erase : ℕ → Queue → Queue
erase seq [] = []
erase seq ((k, x) ∷ q) = let rest = erase seq q in if seq == k then q else (k, x) ∷ rest

-- `erase(begin())`.
abbrev pub erase_first : Queue → Queue
erase_first [] = []
erase_first (x ∷ q) = q

-- `!empty() && seq < rbegin()->first`.
abbrev pub below_last : ℕ → Queue → Bool
below_last seq [] = false
below_last seq ((k, x) ∷ []) = ltb seq k
below_last seq ((k, x) ∷ (y ∷ q)) = below_last seq (y ∷ q)

abbrev pub is_empty : Queue → Bool
is_empty [] = true
is_empty (x ∷ q) = false

abbrev pub max_entries : JitterConfig → ℕ
max_entries c = c.max_ms / frame_ms + 4

abbrev pub no_stats : JitterStats
no_stats = record {
  pushed = 0;
  popped = 0;
  concealed = 0;
  duplicates = 0;
  reordered = 0;
  too_late = 0;
  overflow = 0;
}

module _ (est : Estimator) where
  pub record JitterBuffer : Type 0 where
    pub cfg : JitterConfig
    pub queue : Queue
    pub started : Bool
    pub next_seq : ℕ
    pub last_arrival_ms : ℕ
    pub target_ms : ℕ
    pub jitter_estimate : est.J
    pub prev_arrival_ms : ℕ
    pub have_prev_arrival : Bool
    pub stats : JitterStats

  abbrev pub make : JitterConfig → JitterBuffer
  make cfg = record {
    cfg = cfg;
    queue = [];
    started = false;
    next_seq = 0;
    last_arrival_ms = 0;
    target_ms = cfg.target_ms;
    jitter_estimate = est.none_yet;
    prev_arrival_ms = 0;
    have_prev_arrival = false;
    stats = no_stats;
  }

  unfoldable pub reset : JitterBuffer → JitterBuffer
  reset b = record b {
    queue = [];
    started = false;
    next_seq = 0;
    last_arrival_ms = 0;
    target_ms = b.cfg.target_ms;
    jitter_estimate = est.none_yet;
    have_prev_arrival = false;
    stats = no_stats;
  }

  -- The target that `adapt` ends with, for a new estimate.
  unfoldable pub next_target : JitterConfig → ℕ → ℕ → ℕ
  next_target cfg three_times target =
      let want = add32 (three_times % 2 ^ 32) cfg.min_ms in
      let clamped =
        if ltb want cfg.min_ms
        then cfg.min_ms
        else if ltb cfg.max_ms want
        then cfg.max_ms
        else want in
      if ltb target clamped
      then clamped
      else if ltb (add32 clamped frame_ms) target
      then sub32 target frame_ms
      else target

  unfoldable pub adapt : ℕ → JitterBuffer → JitterBuffer
  unfolding next_target
  adapt arrival b =
      let j =
        if b.have_prev_arrival
        then est.smooth b.jitter_estimate (sub64 arrival b.prev_arrival_ms)
        else b.jitter_estimate in
      record b {
        jitter_estimate = j;
        prev_arrival_ms = arrival;
        have_prev_arrival = true;
        target_ms =
            if b.cfg.adaptive
            then next_target b.cfg (est.three_times j) b.target_ms
            else b.target_ms;
      }

  -- `push` up to the first test.
  unfoldable pub arrive : ℕ → ℕ → JitterBuffer → JitterBuffer
  unfolding adapt
  arrive seq arrival b =
      let b' = adapt arrival (record b {
        last_arrival_ms = arrival;
        stats = record b.stats { pushed = add64 b.stats.pushed 1 };
      }) in
      if b'.started then b' else record b' { started = true; next_seq = seq }

  -- `static_cast<int32_t>(seq - nextSeq_) < 0`.
  abbrev pub is_past : ℕ → ℕ → Bool
  is_past seq next = leb (2 ^ 31) (sub32 seq next)

  -- `push` of a packet that is neither late nor a duplicate.
  unfoldable pub store : ℕ → List ℕ → ℕ → JitterBuffer → JitterBuffer
  store seq payload arrival b =
      let is_full = leb (max_entries b.cfg) (length b.queue) in
      let room = if is_full then erase_first b.queue else b.queue in
      record b {
        queue = emplace seq (record { payload = payload; arrival_ms = arrival }) room;
        stats = record b.stats {
          reordered =
              if below_last seq b.queue then add64 b.stats.reordered 1 else b.stats.reordered;
          overflow = if is_full then add64 b.stats.overflow 1 else b.stats.overflow;
        };
      }

  unfoldable pub push : ℕ → List ℕ → ℕ → JitterBuffer → JitterBuffer
  unfolding arrive store
  push seq payload arrival b =
      let b' = arrive seq arrival b in
      if is_past seq b'.next_seq
      then record b' { stats = record b'.stats { too_late = add64 b'.stats.too_late 1 } }
      else if count seq b'.queue
      then record b' { stats = record b'.stats { duplicates = add64 b'.stats.duplicates 1 } }
      else store seq payload arrival b'

  abbrev pub depth_ms : JitterBuffer → ℕ
  depth_ms b = length b.queue * frame_ms % 2 ^ 32

  unfoldable pub ready : JitterBuffer → Bool
  ready b = b.started && leb b.cfg.prefill_ms (depth_ms b)

  unfoldable pub stalled : ℕ → JitterBuffer → Bool
  stalled now b =
      if not b.started
      then false
      else ltb b.last_arrival_ms now && ltb b.cfg.stall_ms (sub64 now b.last_arrival_ms)

  module _ (dec : Decoder) where
    -- What `pop` gives: its result, the frame, the decoder and the buffer.
    pub record Popped : Type 0 where
      pub ok : Bool
      pub out : List dec.Sample
      pub decoder : dec.D
      pub buffer : JitterBuffer

    abbrev quiet_frame : ℕ → List dec.Sample
    quiet_frame zero = []
    quiet_frame (suc n) = dec.quiet ∷ quiet_frame n

    -- `pop` with what was found under `nextSeq_`.
    pop_found : Option Entry → ℕ → dec.D → JitterBuffer → Popped
    pop_found none samples d b =
        let overdue = not (is_empty b.queue) && ltb b.target_ms (depth_ms b) in
        let (out, d') = dec.conceal samples d in
        record {
          ok = false;
          out = out;
          decoder = d';
          buffer = record b {
            next_seq = if overdue || not (is_empty b.queue) then add32 b.next_seq 1 else b.next_seq;
            stats = record b.stats { concealed = add64 b.stats.concealed 1 };
          };
        }
    pop_found (some e) samples d b =
        let (ok, out, d') = dec.decode e.payload samples d in
        record {
          ok = ok;
          out = out;
          decoder = d';
          buffer = record b {
            queue = erase b.next_seq b.queue;
            next_seq = add32 b.next_seq 1;
            stats = record b.stats { popped = add64 b.stats.popped 1 };
          };
        }

    unfoldable pub pop : ℕ → dec.D → JitterBuffer → Popped
    unfolding pop_found
    pop samples d b =
        if not b.started || not (samples == frame_samples)
        then record { ok = false; out = quiet_frame samples; decoder = d; buffer = b }
        else pop_found (find b.next_seq b.queue) samples d b
