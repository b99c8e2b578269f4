-- ===== src/Media/JitterBuffer/Account.antt =====
-- jitter_buffer.cpp: every packet that is pushed is accounted for, and the queue stays within its
-- bound.
use smartmic_windows.Prelude.{
  ℕ, suc, ◌+◌, ◌-◌, ◌≤◌, ◌<◌, ◌^◌, ◌≡◌, refl, sym, ap, subst, Bool, true, false, not, ◌||◌, List,
  [], ◌∷◌, Option, none, some, arith, length, leb, ◌==◌, if◌then◌else◌, add64, Bool-cases, inl, inr,
}
use native.Mathlib.Decide.{dec_lt}
use smartmic_windows.Media.JitterBuffer.{
  Estimator, Decoder, JitterBuffer, Entry, find, count, erase_first, max_entries, arrive, adapt,
  store, push, pop, pop_found, quiet_frame, is_past, frame_samples,
}
use smartmic_windows.Media.JitterBuffer.Queue.{
  length-emplace, length-erase, length-erase_first, count-find, count-erase_first, Sorted,
  Sorted-emplace, Sorted-erase, Sorted-erase_first,
}

pub data Call : Type 0 where
  pushes : ℕ → List ℕ → ℕ → Call
  pops : ℕ → Call

module _ {est : Estimator} where
  -- The queue is no longer than its bound, and the packets pushed are those played, those held,
  -- those dropped when it was full, those too late and the duplicates.
  pub record Balanced (b : JitterBuffer est) : Type 0 where
    pub bounded : length b.queue ≤ max_entries b.cfg
    pub sorted : Sorted b.queue
    pub balance :
        b.stats.pushed
        ≡ b.stats.popped + length b.queue + b.stats.overflow + b.stats.too_late + b.stats.duplicates
    pub word : b.stats.pushed < 2 ^ 64

  record Arrived (b b' : JitterBuffer est) : Type 0 where
    same_cfg : b'.cfg ≡ b.cfg
    same_queue : b'.queue ≡ b.queue
    one_more : b'.stats.pushed ≡ add64 b.stats.pushed 1
    same_popped : b'.stats.popped ≡ b.stats.popped
    same_overflow : b'.stats.overflow ≡ b.stats.overflow
    same_late : b'.stats.too_late ≡ b.stats.too_late
    same_duplicates : b'.stats.duplicates ≡ b.stats.duplicates

  arrive-Arrived : (seq arrival : ℕ) (b : JitterBuffer est) → Arrived b (arrive est seq arrival b)
  unfolding arrive adapt
  arrive-Arrived seq arrival b = record {
    same_cfg = ground arith;
    same_queue = ground arith;
    one_more = ground arith;
    same_popped = ground arith;
    same_overflow = ground arith;
    same_late = ground arith;
    same_duplicates = ground arith;
  }

  -- A buffer that has counted a packet which is not accounted for yet.
  record Owing (b : JitterBuffer est) : Type 0 where
    bounded : length b.queue ≤ max_entries b.cfg
    sorted : Sorted b.queue
    balance :
        b.stats.pushed
        ≡ suc (
            b.stats.popped
            + length b.queue
            + b.stats.overflow
            + b.stats.too_late
            + b.stats.duplicates)
    word : b.stats.pushed < 2 ^ 64

  arrive-Owing :
      (seq arrival : ℕ) (b : JitterBuffer est)
      → Balanced b
      → b.stats.pushed < 2 ^ 64 - 1
      → Owing (arrive est seq arrival b)
  arrive-Owing seq arrival b v word =
      let a = arrive-Arrived seq arrival b in
      record {
        bounded = omega (arith, v.bounded, ap length a.same_queue, ap max_entries a.same_cfg);
        sorted = subst Sorted (sym a.same_queue) v.sorted;
        balance = omega (
          arith,
          v.balance,
          ap length a.same_queue,
          a.one_more,
          a.same_popped,
          a.same_overflow,
          a.same_late,
          a.same_duplicates,
        );
        word = omega (arith, a.one_more);
      }

  store-Balanced :
      (seq arrival : ℕ) (payload : List ℕ) (b : JitterBuffer est)
      → Owing b
      → count seq b.queue ≡ false
      → Balanced (store est seq payload arrival b)
  unfolding store
  store-Balanced seq arrival payload b o new = elim (dec_lt (length b.queue) (max_entries b.cfg)) [
    | yes room ↦
        let is_full : leb (max_entries b.cfg) (length b.queue) ≡ false = ground arith in
        rw is_full (record {
          bounded = omega (arith, length-emplace seq e b.queue);
          sorted = Sorted-emplace seq e b.queue o.sorted new;
          balance = omega (arith, length-emplace seq e b.queue, o.balance);
          word = o.word;
        })
    | no full ↦
        let is_full : leb (max_entries b.cfg) (length b.queue) ≡ true = ground arith in
        rw is_full (record {
          bounded = omega (
            arith,
            length-emplace seq e (erase_first b.queue),
            length-erase_first b.queue,
            o.bounded,
          );
          sorted =
              Sorted-emplace seq e (erase_first b.queue) (Sorted-erase_first b.queue o.sorted)
                (count-erase_first seq b.queue new);
          balance = omega (
            arith,
            length-emplace seq e (erase_first b.queue),
            length-erase_first b.queue,
            o.balance,
            o.word,
          );
          word = o.word;
        })
  ]
    where
      e : Entry
      e = record { payload = payload; arrival_ms = arrival }

  -- A pushed packet leaves the buffer balanced, whatever its number.
  push-Balanced :
      (seq arrival : ℕ) (payload : List ℕ) (b : JitterBuffer est)
      → Balanced b
      → b.stats.pushed < 2 ^ 64 - 1
      → Balanced (push est seq payload arrival b)
  unfolding push
  push-Balanced seq arrival payload b v word =
      go (is_past est seq b'.next_seq) (count seq b'.queue) refl
    where
      b' : JitterBuffer est
      b' = arrive est seq arrival b

      o : Owing b'
      o = arrive-Owing seq arrival b v word

      go :
          (past twice : Bool)
          → count seq b'.queue ≡ twice
          → Balanced (
              if past
              then record b' { stats = record b'.stats { too_late = add64 b'.stats.too_late 1 } }
              else if twice
              then record b' {
                stats = record b'.stats { duplicates = add64 b'.stats.duplicates 1 };
              }
              else store est seq payload arrival b')
      go true twice e = record {
        bounded = o.bounded;
        sorted = o.sorted;
        balance = omega (arith, o.balance, o.word);
        word = o.word;
      }
      go false true e = record {
        bounded = o.bounded;
        sorted = o.sorted;
        balance = omega (arith, o.balance, o.word);
        word = o.word;
      }
      go false false e = store-Balanced seq arrival payload b' o e

  pop_found-Balanced :
      (dec : Decoder) (o : Option Entry) (samples : ℕ) (d : dec.D) (b : JitterBuffer est)
      → find b.next_seq b.queue ≡ o
      → Balanced b
      → Balanced (pop_found est dec o samples d b).buffer
  unfolding pop_found
  pop_found-Balanced dec none samples d b e v = record {
    bounded = v.bounded;
    sorted = v.sorted;
    balance = v.balance;
    word = v.word;
  }
  pop_found-Balanced dec (some entry) samples d b e v =
      let one_less = length-erase b.next_seq b.queue (count-find b.next_seq b.queue entry e) in
      record {
        bounded = omega (arith, one_less, v.bounded);
        sorted = Sorted-erase b.next_seq b.queue v.sorted;
        balance = omega (arith, one_less, v.balance, v.word);
        word = v.word;
      }

  pop-Balanced :
      (dec : Decoder) (samples : ℕ) (d : dec.D) (b : JitterBuffer est)
      → Balanced b
      → Balanced (pop est dec samples d b).buffer
  unfolding pop
  pop-Balanced dec samples d b v = go (not b.started || not (samples == frame_samples))
    where
      found : Balanced (pop_found est dec (find b.next_seq b.queue) samples d b).buffer
      found = pop_found-Balanced dec (find b.next_seq b.queue) samples d b refl v

      go :
          (early : Bool)
          → Balanced
              (if early
                then record {
                  ok = false;
                  out = quiet_frame est dec samples;
                  decoder = d;
                  buffer = b;
                }
                else pop_found est dec (find b.next_seq b.queue) samples d b).buffer
      go true = v
      go false = found

  -- The calls in order, with a decoder.
  abbrev pub calls : (dec : Decoder) → List Call → dec.D → JitterBuffer est → JitterBuffer est
  calls dec [] d b = b
  calls dec (pushes seq payload arrival ∷ cs) d b = calls dec cs d (push est seq payload arrival b)
  calls dec (pops samples ∷ cs) d b =
      let p = pop est dec samples d b in calls dec cs p.decoder p.buffer

  push-pushed :
      (seq arrival : ℕ) (payload : List ℕ) (b : JitterBuffer est)
      → (push est seq payload arrival b).stats.pushed ≡ add64 b.stats.pushed 1
  unfolding push store
  push-pushed seq arrival payload b =
      let a = (arrive-Arrived seq arrival b).one_more in ground (arith, a)

  pop-pushed :
      (dec : Decoder) (samples : ℕ) (d : dec.D) (b : JitterBuffer est)
      → (pop est dec samples d b).buffer.stats.pushed ≡ b.stats.pushed
  unfolding pop pop_found
  pop-pushed dec samples d b = elim (Bool-cases (not b.started || not (samples == frame_samples))) [
    | inl early ↦ rw early refl
    | inr going ↦ rw going (go (find b.next_seq b.queue))
  ]
    where
      go :
          (o : Option Entry)
          → (pop_found est dec o samples d b).buffer.stats.pushed ≡ b.stats.pushed
      go none = refl
      go (some e) = refl

  -- Through any pushes and pops, in any order and of any numbers, fewer than 2 ^ 64 pushes in all: the
  -- queue is in order without repeats and no longer than its bound, and every packet pushed is played,
  -- held, dropped because the queue was full, too late, or a duplicate, exactly one of these.
  pub calls-Balanced :
      (dec : Decoder) (cs : List Call) (d : dec.D) (b : JitterBuffer est)
      → Balanced b
      → b.stats.pushed + length cs < 2 ^ 64
      → Balanced (calls dec cs d b)
  calls-Balanced dec [] d b v h = v
  calls-Balanced dec (pushes seq payload arrival ∷ cs) d b v h =
      calls-Balanced dec cs d (push est seq payload arrival b)
        (push-Balanced seq arrival payload b v (omega arith))
        (omega (arith, push-pushed seq arrival payload b))
  calls-Balanced dec (pops samples ∷ cs) d b v h =
      calls-Balanced dec cs (pop est dec samples d b).decoder (pop est dec samples d b).buffer
        (pop-Balanced dec samples d b v) (omega (arith, pop-pushed dec samples d b))
