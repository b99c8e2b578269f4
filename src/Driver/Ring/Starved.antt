-- ===== src/Driver/Ring/Starved.antt =====
-- What happens once the consumer has run ahead of the producer by more than one write.
use smartmic_windows.Prelude.{
  ℕ, ◌+◌, ◌-◌, ◌≤◌, ◌<◌, ◌^◌, ◌≡◌, refl, sym, ap, ◌∙◌, Bool, true, false, List, [], ◌∷◌, ◌++◌,
  length, replicate, arith, min, add64, sub64, add32, ◌==◌, All, lt→ltb, subst, length-replicate,
}
use smartmic_windows.Cells.{copy_out}
use smartmic_windows.Cells.Window.{copy_out-window}
use smartmic_windows.Driver.Ring.{
  Ring, span, read, read_live, producer_alive, link_write, link_drop, ring_frames, all_silent,
}

-- The calls of the two sides, each at an interrupt time.
pub data Call : Type 0 where
  writes : ℕ → List ℕ → Call
  reads : ℕ → ℕ → Call

-- The ring after the calls, with what each read delivered.
abbrev pub calls : List Call → Ring → List (List ℕ) × Ring
calls [] r = ([], r)
calls (writes now frames ∷ cs) r = calls cs (link_write now r frames)
calls (reads now frames ∷ cs) r =
    let (real, out, r') = read now r frames in let (outs, r'') = calls cs r' in (out ∷ outs, r'')

abbrev pub asked : List Call → ℕ
asked [] = 0
asked (writes now frames ∷ cs) = asked cs
asked (reads now frames ∷ cs) = frames + asked cs

-- No write is longer than `n` frames.
abbrev pub AtMost : ℕ → Call → Type 0
AtMost n (writes now frames) = length frames ≤ n
AtMost n (reads now frames) = frames ≤ 2 ^ 30

-- The consumer's index is more than `n` frames past the producer's.
pub record Ahead (n w : ℕ) (r : Ring) : Type 0 where
  pub ready : r.is_ready ≡ true
  pub written : r.write_index ≡ w
  pub past : w + n < r.read_index

abbrev pub Silent : List ℕ → Type 0
Silent out = out ≡ replicate (length out) 0

link_write-Ahead :
    (n w now : ℕ) (r : Ring) (frames : List ℕ)
    → Ahead n w r
    → length frames ≤ n
    → n ≤ ring_frames
    → r.read_index < 2 ^ 63
    → link_write now r frames ≡ link_drop now r frames
unfolding link_write
link_write-Ahead n w now r frames v short n_fits word =
    let big : ring_frames < add64 (sub64 r.write_index r.read_index) (length frames) =
      omega (arith, v.past, v.written) in
    rw (lt→ltb ring_frames (add64 (sub64 r.write_index r.read_index) (length frames)) big) refl

Silent-replicate : (n : ℕ) → Silent (replicate n 0)
Silent-replicate n = ap (λ k. replicate k 0) (sym (length-replicate {A = ℕ} n 0))

span-Ahead :
    (n w : ℕ) (r : Ring) → Ahead n w r → ((span r).start ≡ r.read_index) × ((span r).available ≡ 0)
unfolding span
span-Ahead n w r v = ground (arith, v.past, v.written)

-- A read that delivers only silence and leaves the producer's index alone.
record Hushed (n w : ℕ) (r : Ring) (frames : ℕ) (out : ℕ × List ℕ × Ring) : Type 0 where
  silent : Silent out.1
  still : Ahead n w out.2
  bound : out.2.read_index ≤ r.read_index + frames

read_live-Hushed :
    (n w : ℕ) (r : Ring) (frames : ℕ)
    → Ahead n w r
    → r.read_index + frames < 2 ^ 63
    → Hushed n w r frames (read_live r frames)
unfolding read_live
read_live-Hushed n w r frames v word = record {
  silent = subst Silent (sym hushed) (Silent-replicate frames);
  still = record {
    ready = v.ready;
    written = v.written;
    past = omega (arith, (span-Ahead n w r v).0, v.past);
  };
  bound = omega (arith, (span-Ahead n w r v).0);
}
  where
    none : min frames (span r).available ≡ 0
    none = omega (arith, (span-Ahead n w r v).1)

    hushed : (read_live r frames).1 ≡ replicate frames 0
    hushed =
        ap (λ k. copy_out r.payload ring_frames (span r).start k ++ replicate (frames - k) 0) none
        ∙ ap (λ xs. xs ++ replicate (frames - 0) 0)
            (copy_out-window r.payload 13 (span r).start 0 (omega arith))
        ∙ ap (λ k. replicate k 0) (omega arith)

read-Hushed :
    (n w now : ℕ) (r : Ring) (frames : ℕ)
    → Ahead n w r
    → r.read_index + frames < 2 ^ 63
    → Hushed n w r frames (read now r frames)
unfolding read
read-Hushed n w now r frames v word = go (frames == 0) (producer_alive now r) refl refl
  where
    quiet :
        (r' : Ring)
        → r'.is_ready ≡ r.is_ready
        → r'.write_index ≡ r.write_index
        → r'.read_index ≡ r.read_index
        → Hushed n w r frames (0, all_silent frames, r')
    quiet r' a b c = record {
      silent = Silent-replicate _;
      still = record {
        ready = a ∙ v.ready;
        written = b ∙ v.written;
        past = omega (arith, c, v.past);
      };
      bound = omega (arith, c);
    }

    go :
        (e a : Bool)
        → (frames == 0) ≡ e
        → producer_alive now r ≡ a
        → Hushed n w r frames (read now r frames)
    go true a p q =
        let e : read now r frames ≡ (0, all_silent frames, r) = ground arith in
        subst (Hushed n w r frames) (sym e) (quiet r refl refl refl)
    go false false p q =
        let r' : Ring = record r { underrun_count = add32 r.underrun_count frames } in
        let e : read now r frames ≡ (0, all_silent frames, r') = ground (arith, v.ready) in
        subst (Hushed n w r frames) (sym e) (quiet r' refl refl refl)
    go false true p q =
        let e : read now r frames ≡ read_live r frames = ground (arith, v.ready) in
        subst (Hushed n w r frames) (sym e) (read_live-Hushed n w r frames v word)

link_drop-Ahead :
    (n w now : ℕ) (r : Ring) (frames : List ℕ) → Ahead n w r → Ahead n w (link_drop now r frames)
unfolding link_drop
link_drop-Ahead n w now r frames v = record { ready = v.ready; written = v.written; past = v.past }

link_drop-read_index :
    (now : ℕ) (r : Ring) (frames : List ℕ) → (link_drop now r frames).read_index ≡ r.read_index
unfolding link_drop
link_drop-read_index now r frames = refl

-- Once the driver has read more than `n` frames past what the service has written, no further call
-- brings sound back, as long as the stream is not opened again: whatever the service writes, in
-- pieces of at most `n` frames, is dropped, the producer's index stands still, and every read
-- delivers silence.
pub starved_for_good :
    (n w : ℕ) (cs : List Call) (r : Ring)
    → Ahead n w r
    → n ≤ ring_frames
    → All (AtMost n) cs
    → r.read_index + asked cs < 2 ^ 63
    → let (outs, r') = calls cs r in Ahead n w r' × All Silent outs
starved_for_good n w [] r v n_fits short word = (v, tt)
starved_for_good n w (writes now frames ∷ cs) r v n_fits short word =
    subst (λ q. let (outs, r') = calls cs q in Ahead n w r' × All Silent outs)
      (sym (link_write-Ahead n w now r frames v short.0 n_fits (omega arith)))
      (starved_for_good n w cs (link_drop now r frames) (link_drop-Ahead n w now r frames v) n_fits
        short.1 (omega (arith, link_drop-read_index now r frames)))
starved_for_good n w (reads now frames ∷ cs) r v n_fits short word =
    let h = read-Hushed n w now r frames v (omega arith) in
    let (still, outs) =
      starved_for_good n w cs (read now r frames).2 h.still n_fits short.1
        (omega (arith, h.bound)) in
    (still, (h.silent, outs))
