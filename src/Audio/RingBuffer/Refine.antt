-- ===== src/Audio/RingBuffer/Refine.antt =====
-- ring_buffer.h: the ring as a bounded queue that keeps the newest items.
use smartmic_windows.Prelude.{
  ℕ, ◌+◌, ◌-◌, ◌%◌, ◌^◌, ◌≤◌, ◌<◌, ◌≡◌, refl, sym, subst, ap, ◌∙◌, List, [], ◌∷◌, ◌++◌, false,
  append-nil, take, take_all, length-take, ◌==◌, length, drop, replicate, add64, sub64, arith,
  length-append, drop_all, length-drop, length-replicate, drop-append_left, drop-append_right,
  lt→ltb, le→ltb, ne→eqb,
}
use mathlib.Core.Path.{ap₂}
use native.Mathlib.Decide.{dec_lt}
use native.Mathlib.Nat.{pow-le-pow_right}
use smartmic_windows.Cells.{Memory, copy_in, copy_out}
use smartmic_windows.Cells.Mask.{mod-wrapped}
use smartmic_windows.Cells.Window.{
  window, length-window, window-append, take-window, drop-window, window-mod, copy_out-window,
  window-copy_in, window-copy_in_before, copy_in_mod,
}
use smartmic_windows.Audio.RingBuffer.{
  RingBuffer, fresh, available, write_kept, write, read, read_or_silence, clear,
}

pow_bound : (k : ℕ) → k ≤ 62 → 2 ^ k ≤ 2 ^ 62
pow_bound k h = pow-le-pow_right {n = 2} (omega arith) h

-- The counters after a write of `n` items that pushes out what does not fit.
held_after :
    (capacity w r n : ℕ)
    → capacity ≤ 2 ^ 62
    → w < 2 ^ 64
    → r < 2 ^ 64
    → sub64 w r ≤ capacity
    → n ≤ capacity
    → sub64 (add64 w n) (add64 r (sub64 w r + n - capacity))
      ≡ sub64 w r - (sub64 w r + n - capacity) + n
held_after capacity w r n c hw hr hu hn = omega arith

-- The writer stands `held` places past the reader.
writer_place : (k w r : ℕ) → k ≤ 62 → w < 2 ^ 64 → r < 2 ^ 64 → w % 2 ^ k ≡ (r + sub64 w r) % 2 ^ k
writer_place k w r h hw hr =
    ap (λ n. n % 2 ^ k) wrapped ∙ mod-wrapped k (r + sub64 w r) (omega arith)
  where
    wrapped : w ≡ (r + sub64 w r) % 2 ^ 64
    wrapped = omega arith

module _ {A : Type 0} where
  -- The capacity is a power of two, the counters are words, and no more is held than fits.
  pub record IsValid (k : ℕ) (r : RingBuffer A) : Type 0 where
    pub power : r.capacity ≡ 2 ^ k
    pub small : k ≤ 62
    pub write_word : r.write_index < 2 ^ 64
    pub read_word : r.read_index < 2 ^ 64
    pub held : available r ≤ r.capacity

  -- The items that are held, oldest first.
  abbrev pub contents : RingBuffer A → List A
  contents r = window r.cells r.capacity r.read_index (available r)

  -- How many items of a list are too many.
  abbrev pub excess : RingBuffer A → List A → ℕ
  excess r items = length items - r.capacity

  contents_after :
      (m : Memory A) (k w r over : ℕ) (src : List A)
      → k ≤ 62
      → w < 2 ^ 64
      → r < 2 ^ 64
      → over ≤ sub64 w r
      → sub64 w r - over + length src ≤ 2 ^ k
      → window (copy_in m (2 ^ k) w src) (2 ^ k) (add64 r over) (sub64 w r - over + length src)
        ≡ drop over (window m (2 ^ k) r (sub64 w r)) ++ src
  contents_after m k w r over src h hw hr ho hn =
      window-mod m' (2 ^ k) (add64 r over) (r + over) (kept + n)
        (mod-wrapped k (r + over) (omega arith))
      ∙ window-append m' (2 ^ k) (r + over) kept n
      ∙ ap₂ ◌++◌ before after
    where
      n : ℕ
      n = length src

      kept : ℕ
      kept = sub64 w r - over

      m' : Memory A
      m' = copy_in m (2 ^ k) w src

      moved : m' ≡ copy_in m (2 ^ k) (r + over + kept) src
      moved =
          copy_in_mod m k w (r + over + kept) src
            (writer_place k w r h hw hr ∙ ap (λ t. t % 2 ^ k) (omega arith))

      before : window m' (2 ^ k) (r + over) kept ≡ drop over (window m (2 ^ k) r (sub64 w r))
      before =
          ap (λ c. window c (2 ^ k) (r + over) kept) moved
          ∙ window-copy_in_before m k (r + over) kept src hn
          ∙ sym (drop-window m (2 ^ k) r over (sub64 w r) ho)

      after : window m' (2 ^ k) (r + over + kept) n ≡ src
      after =
          ap (λ c. window c (2 ^ k) (r + over + kept) n) moved
          ∙ window-copy_in m k (r + over + kept) src (omega arith)

  abbrev overflow_of : RingBuffer A → List A → ℕ
  overflow_of r src = available r + length src - r.capacity

  write_kept-read_index :
      (r : RingBuffer A) (src : List A) (dropped : ℕ)
      → available r + length src < 2 ^ 64
      → r.read_index < 2 ^ 64
      → (write_kept r src dropped).1.read_index ≡ add64 r.read_index (overflow_of r src)
  unfolding write_kept
  write_kept-read_index r src dropped h p = ground arith

  write_kept-dropped :
      (r : RingBuffer A) (src : List A) (dropped : ℕ)
      → available r + length src < 2 ^ 64
      → (write_kept r src dropped).0 ≡ add64 dropped (overflow_of r src)
  unfolding write_kept
  write_kept-dropped r src dropped h = ground arith

  -- What one write leaves, for an input that fits.
  record Kept (k : ℕ) (r : RingBuffer A) (src : List A) (dropped : ℕ) (out : ℕ × RingBuffer A)
      : Type 0 where
    kept_valid : IsValid k out.1
    kept_count : out.0 ≡ add64 dropped (overflow_of r src)
    kept_contents : contents out.1 ≡ drop (overflow_of r src) (contents r) ++ src

  write_kept-Kept :
      (k : ℕ) (r : RingBuffer A) (src : List A) (dropped : ℕ)
      → IsValid k r
      → length src ≤ r.capacity
      → Kept k r src dropped (write_kept r src dropped)
  unfolding write_kept
  write_kept-Kept k r src dropped v h = record {
    kept_valid = record {
      power = v.power;
      small = v.small;
      write_word = omega arith;
      read_word = omega (arith, moved);
      held = omega (arith, counted);
    };
    kept_count = write_kept-dropped r src dropped (omega (arith, bound));
    kept_contents =
        ap₂ (window (copy_in r.cells r.capacity r.write_index src) r.capacity) moved counted
        ∙ subst
            (λ c.
              window (copy_in r.cells c r.write_index src) c
                (add64 r.read_index (overflow_of r src))
                (available r - overflow_of r src + length src)
              ≡ drop (overflow_of r src) (window r.cells c r.read_index (available r)) ++ src)
            (sym v.power)
            (contents_after r.cells k r.write_index r.read_index (overflow_of r src) src v.small
              v.write_word v.read_word (omega arith) (omega (arith, v.power)));
  }
    where
      bound : r.capacity ≤ 2 ^ 62
      bound = omega (arith, v.power, pow_bound k v.small)

      moved : (write_kept r src dropped).1.read_index ≡ add64 r.read_index (overflow_of r src)
      moved = write_kept-read_index r src dropped (omega (arith, bound)) v.read_word

      counted :
          sub64 (add64 r.write_index (length src)) (write_kept r src dropped).1.read_index
          ≡ available r - overflow_of r src + length src
      counted =
          ap (sub64 (add64 r.write_index (length src))) moved
          ∙ held_after r.capacity r.write_index r.read_index (length src) bound v.write_word
              v.read_word v.held h

  pub length-contents : (r : RingBuffer A) → length (contents r) ≡ available r
  length-contents r = length-window r.cells r.capacity r.read_index (available r)

  excess_lem : (r : RingBuffer A) (src : List A) → excess r (contents r ++ src) ≡ overflow_of r src
  excess_lem r src = omega (arith, length-append (contents r) src, length-contents r)

  abbrev Writes : ℕ → RingBuffer A → List A → ℕ × RingBuffer A → Type 0
  Writes k r src (dropped, r') =
      let all = contents r ++ src in
      IsValid k r' × (dropped ≡ excess r all) × (contents r' ≡ drop (excess r all) all)

  write_fits :
      (k : ℕ) (r : RingBuffer A) (src : List A)
      → IsValid k r
      → length src ≤ r.capacity
      → Writes k r src (write_kept r src 0)
  write_fits k r src v h = rw (excess_lem r src) (
    step.kept_valid,
    step.kept_count ∙ small,
    step.kept_contents
        ∙ sym (
            drop-append_left (overflow_of r src) (contents r) src
              (omega (arith, length-contents r, v.held))),
  )
    where
      step : Kept k r src 0 (write_kept r src 0)
      step = write_kept-Kept k r src 0 v h

      small : add64 0 (overflow_of r src) ≡ overflow_of r src
      small = omega (arith, v.held, v.power, pow_bound k v.small)

  write_tail :
      (k : ℕ) (r : RingBuffer A) (src : List A)
      → IsValid k r
      → length src < 2 ^ 62
      → r.capacity < length src
      → let over = length src - r.capacity in Writes k r src (write_kept r (drop over src) over)
  write_tail k r src v h p = rw (excess_lem r src) (
    step.kept_valid,
    step.kept_count ∙ omega (arith, all_out, bound, v.held),
    step.kept_contents
        ∙ ap (λ xs. xs ++ drop over src)
            (drop_all (overflow_of r tail) (contents r) (omega (arith, all_out, length-contents r)))
        ∙ ap (λ n. drop n src) (omega (arith, length-contents r))
        ∙ sym (
            drop-append_right (overflow_of r src) (contents r) src
              (omega (arith, length-contents r))),
  )
    where
      over : ℕ
      over = length src - r.capacity

      tail : List A
      tail = drop over src

      bound : r.capacity ≤ 2 ^ 62
      bound = omega (arith, v.power, pow_bound k v.small)

      all_out : overflow_of r tail ≡ available r
      all_out = omega (arith, length-drop over src)

      step : Kept k r tail over (write_kept r tail over)
      step = write_kept-Kept k r tail over v (omega (arith, length-drop over src))

  -- A write keeps the invariant. It drops exactly the oldest of all the items, those held and those
  -- written, that do not fit, and returns their number; the newest stay, in order.
  pub write_refines :
      (k : ℕ) (r : RingBuffer A) (src : List A)
      → IsValid k r
      → length src < 2 ^ 62
      → let (dropped, r') = write r src in
        let all = contents r ++ src in
        IsValid k r' × (dropped ≡ excess r all) × (contents r' ≡ drop (excess r all) all)
  unfolding write
  write_refines k r [] v h =
      let none_over : excess r (contents r ++ []) ≡ 0 = omega (arith, excess_lem r [], v.held) in
      rw none_over (v, refl, sym (append-nil (contents r)))
  write_refines k r (x ∷ xs) v h = elim (dec_lt r.capacity (length (x ∷ xs))) [
    | yes long ↦ rw (some_items, lt→ltb _ _ long) (write_tail k r (x ∷ xs) v h long)
    | no fits ↦
        rw (some_items, le→ltb r.capacity (length (x ∷ xs)) (omega arith))
          (write_fits k r (x ∷ xs) v (omega arith))
  ]
    where
      some_items : (length (x ∷ xs) == 0) ≡ false
      some_items = ne→eqb (length (x ∷ xs)) 0 (omega arith)

  -- Reading `n` items, no more than are held.
  read_held :
      (k : ℕ) (r : RingBuffer A) (n : ℕ)
      → IsValid k r
      → n ≤ available r
      → (copy_out r.cells r.capacity r.read_index n ≡ window r.cells r.capacity r.read_index n)
        × (sub64 r.write_index (add64 r.read_index n) ≡ available r - n)
        × (window r.cells r.capacity (add64 r.read_index n) (available r - n) ≡ drop n (contents r))
  read_held k r n v h = (
    subst (λ c. copy_out r.cells c r.read_index n ≡ window r.cells c r.read_index n) (sym v.power)
        (copy_out-window r.cells k r.read_index n (omega (arith, v.power, v.held))),
    omega (arith, v.write_word, v.read_word),
    subst
        (λ c.
          window r.cells c (add64 r.read_index n) (available r - n)
          ≡ drop n (window r.cells c r.read_index (available r)))
        (sym v.power)
        (window-mod r.cells (2 ^ k) (add64 r.read_index n) (r.read_index + n) (available r - n)
            (mod-wrapped k (r.read_index + n) (omega (arith, v.small)))
          ∙ sym (drop-window r.cells (2 ^ k) r.read_index n (available r) h)),
  )

  -- A read keeps the invariant, returns the oldest items, as many as asked for or as there are,
  -- and leaves the rest.
  pub read_refines :
      (k : ℕ) (r : RingBuffer A) (count : ℕ)
      → IsValid k r
      → let (items, r') = read r count in
        IsValid k r' × (items ≡ take count (contents r)) × (contents r' ≡ drop count (contents r))
  unfolding read
  read_refines k r count v = elim (dec_lt (available r) count) [
    | yes short ↦
        let (out, less, rest) = read_held k r (available r) v (omega arith) in
        rw (lt→ltb _ _ short) (
          record {
            power = v.power;
            small = v.small;
            write_word = v.write_word;
            read_word = omega arith;
            held = omega (arith, less, v.held);
          },
          out ∙ sym (take_all count (contents r) (omega (arith, length-contents r))),
          ap (window r.cells r.capacity (add64 r.read_index (available r))) less
              ∙ rest
              ∙ drop_all (available r) (contents r) (omega (arith, length-contents r))
              ∙ sym (drop_all count (contents r) (omega (arith, length-contents r))),
        )
    | no enough ↦
        let (out, less, rest) = read_held k r count v (omega arith) in
        rw (le→ltb (available r) count (omega arith)) (
          record {
            power = v.power;
            small = v.small;
            write_word = v.write_word;
            read_word = omega arith;
            held = omega (arith, less, v.held);
          },
          out ∙ take-window r.cells r.capacity r.read_index count (available r) (omega arith),
          ap (window r.cells r.capacity (add64 r.read_index count)) less ∙ rest,
        )
  ]

  -- A read that fills with silence returns exactly `count` items, the oldest ones first.
  length-read_or_silence :
      (k : ℕ) (silence : A) (r : RingBuffer A) (count : ℕ)
      → IsValid k r
      → length (read_or_silence silence r count).0 ≡ count
  unfolding read_or_silence
  length-read_or_silence k silence r count v =
      let (_, items, _) = read_refines k r count v in
      omega (
        arith,
        ap length items,
        length-take count (contents r),
        length-append (read r count).0 (replicate (count - length (read r count).0) silence),
        length-replicate (count - length (read r count).0) silence,
      )

  -- After `clear` nothing is held.
  clear_empty : (k : ℕ) (r : RingBuffer A) → IsValid k r → contents (clear r) ≡ []
  unfolding clear
  clear_empty k r v =
      let e : sub64 r.write_index r.write_index ≡ 0 = omega (arith, v.write_word) in
      ap (window r.cells r.capacity r.write_index) e

  pub fresh-IsValid : (k : ℕ) (fill : A) → k ≤ 62 → IsValid k (fresh (2 ^ k) fill)
  unfolding fresh
  fresh-IsValid k fill h = record {
    power = refl;
    small = h;
    write_word = omega arith;
    read_word = omega arith;
    held = omega arith;
  }
