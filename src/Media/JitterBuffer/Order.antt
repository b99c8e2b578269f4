-- ===== src/Media/JitterBuffer/Order.antt =====
-- jitter_buffer.cpp: which packet a pop plays, and when the play position moves.
use smartmic_windows.Prelude.{
  ℕ, ◌≡◌, refl, sym, ap, Bool, true, false, not, ◌||◌, [], ◌∷◌, List, Option, none, some, arith,
  ◌==◌, if◌then◌else◌, add32, add64, subst,
}
use smartmic_windows.Media.JitterBuffer.{
  Estimator, Decoder, JitterBuffer, Queue, Entry, Popped, find, count, erase, is_empty, pop,
  pop_found, quiet_frame, frame_samples,
}
use smartmic_windows.Media.JitterBuffer.Queue.{count-find}

count-find-none : (seq : ℕ) (q : Queue) → find seq q ≡ none → count seq q ≡ false
count-find-none seq [] h = refl
count-find-none seq ((k, x) ∷ q) h = ground (arith, count-find-none seq q)

find-some-nonempty : (seq : ℕ) (q : Queue) (e : Entry) → find seq q ≡ some e → is_empty q ≡ false
find-some-nonempty seq [] e h = ground arith
find-some-nonempty seq (x ∷ q) e h = refl

-- The result of a pop and its frame: the packet decoded, or a frame concealed.
abbrev pub sound : (dec : Decoder) → Option Entry → dec.D → Bool × List dec.Sample × dec.D
sound dec none d = let (out, d') = dec.conceal frame_samples d in (false, out, d')
sound dec (some e) d = dec.decode e.payload frame_samples d

module _ {est : Estimator} where
  -- What a pop of one frame gives, and does to the position and to the packet there.
  pub record PlaysNext (dec : Decoder) (d : dec.D) (b : JitterBuffer est) (p : Popped est dec)
      : Type 0 where
    pub played : (p.ok, p.out, p.decoder) ≡ sound dec (find b.next_seq b.queue) d
    pub position : p.buffer.next_seq ≡ (if is_empty b.queue then b.next_seq else add32 b.next_seq 1)
    pub rest :
        p.buffer.queue ≡ (if count b.next_seq b.queue then erase b.next_seq b.queue else b.queue)
    pub concealed :
        p.buffer.stats.concealed
        ≡ (if count b.next_seq b.queue then b.stats.concealed else add64 b.stats.concealed 1)

  -- A pop of one frame from a buffer that has started plays the packet at the play position if it is
  -- there, and otherwise conceals; the position then moves by one exactly when the queue was not empty,
  -- whatever the depth and the target.
  pub pop-PlaysNext :
      (dec : Decoder) (d : dec.D) (b : JitterBuffer est)
      → b.started ≡ true
      → PlaysNext dec d b (pop est dec frame_samples d b)
  unfolding pop pop_found
  pop-PlaysNext dec d b on =
      let e : pop est dec frame_samples d b
          ≡ pop_found est dec (find b.next_seq b.queue) frame_samples d b =
        going (not b.started || not (frame_samples == frame_samples))
          (ap (λ s. not s || false) on) in
      subst (PlaysNext dec d b) (sym e) (found (find b.next_seq b.queue) refl)
    where
      going :
          (early : Bool)
          → early ≡ false
          → (if early
              then record {
                ok = false;
                out = quiet_frame est dec frame_samples;
                decoder = d;
                buffer = b;
              }
              else pop_found est dec (find b.next_seq b.queue) frame_samples d b)
            ≡ pop_found est dec (find b.next_seq b.queue) frame_samples d b
      going false e = refl
      going true e = ground arith

      found :
          (o : Option Entry)
          → find b.next_seq b.queue ≡ o
          → PlaysNext dec d b (pop_found est dec o frame_samples d b)
      found none e =
          let missing = count-find-none b.next_seq b.queue e in
          record {
            played = ap (λ o. sound dec o d) (sym e);
            position = ground arith;
            rest = rw missing refl;
            concealed = rw missing refl;
          }
      found (some entry) e =
          let there = count-find b.next_seq b.queue entry e in
          let held = find-some-nonempty b.next_seq b.queue entry e in
          record {
            played = ap (λ o. sound dec o d) (sym e);
            position = rw held refl;
            rest = rw there refl;
            concealed = rw there refl;
          }
