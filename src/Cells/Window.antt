-- ===== src/Cells/Window.antt =====
-- The two-segment copies against the plain reading of a ring: `count` elements from a counter on,
-- each at its counter's remainder.
use smartmic_windows.Prelude.{
  ℕ, zero, suc, ◌+◌, ◌-◌, ◌%◌, ◌^◌, ◌≤◌, ◌<◌, ◌≡◌, refl, sym, subst, ◌∙◌, ap, List, [], ◌∷◌, ◌++◌,
  get_or, length, take, drop, arith, take_all, get_or_out, get_or_in, get_or-take, get_or-drop,
  length-take, length-drop, lt→ltb, le→ltb,
}
use mathlib.Core.Path.{ap₂}
use native.Mathlib.Nat.{mod-lt, mod-add-mod, add-mod_right}
use native.Mathlib.Decide.{dec_lt}
use smartmic_windows.Cells.{Memory, load, copy_in, copy_in_at, copy_out, copy_out_at}
use smartmic_windows.Cells.Mask.{mask-mod, pow_pos, mod-add_small, mod-add_wrap}

module _ {A : Type 0} where
  -- The `n` elements from counter `at` on.
  abbrev pub window : Memory A → ℕ → ℕ → ℕ → List A
  window m capacity at zero = []
  window m capacity at (suc n) = m (at % capacity) ∷ window m capacity (suc at) n

  pub length-window : (m : Memory A) (capacity at n : ℕ) → length (window m capacity at n) ≡ n
  length-window m capacity at zero = refl
  length-window m capacity at (suc n) = ap suc (length-window m capacity (suc at) n)

  pub window-append :
      (m : Memory A) (capacity at a b : ℕ)
      → window m capacity at (a + b) ≡ window m capacity at a ++ window m capacity (at + a) b
  window-append m capacity at zero b =
      let e : zero + b ≡ b = omega arith in let e' : at + zero ≡ at = omega arith in rw (e, e')
  window-append m capacity at (suc a) b =
      let e : suc a + b ≡ suc (a + b) = omega arith in
      let e' : at + suc a ≡ suc at + a = omega arith in
      rw (e, e') (ap (◌∷◌ (m (at % capacity))) (window-append m capacity (suc at) a b))

  pub drop-window :
      (m : Memory A) (capacity at a n : ℕ)
      → a ≤ n
      → drop a (window m capacity at n) ≡ window m capacity (at + a) (n - a)
  drop-window m capacity at zero n h =
      let e : at + zero ≡ at = omega arith in let e' : n - zero ≡ n = omega arith in rw (e, e')
  drop-window m capacity at (suc a) zero h = absurd (omega arith)
  drop-window m capacity at (suc a) (suc n) h =
      let e : at + suc a ≡ suc at + a = omega arith in
      let e' : suc n - suc a ≡ n - a = omega arith in
      rw (e, e') (drop-window m capacity (suc at) a n (omega arith))

  pub take-window :
      (m : Memory A) (capacity at a n : ℕ)
      → a ≤ n
      → window m capacity at a ≡ take a (window m capacity at n)
  take-window m capacity at zero n h = refl
  take-window m capacity at (suc a) zero h = absurd (omega arith)
  take-window m capacity at (suc a) (suc n) h =
      ap (◌∷◌ (m (at % capacity))) (take-window m capacity (suc at) a n (omega arith))

  shift_start :
      (m : Memory A) (capacity at : ℕ) (x : A) → m ((at + 0) % capacity) ≡ x → m (at % capacity) ≡ x
  shift_start m capacity at x h =
      let e : at ≡ at + 0 = omega arith in ap (λ k. m (k % capacity)) e ∙ h

  shift_next :
      (m : Memory A) (capacity at i : ℕ) → m ((suc at + i) % capacity) ≡ m ((at + suc i) % capacity)
  shift_next m capacity at i =
      let e : suc at + i ≡ at + suc i = omega arith in ap (λ k. m (k % capacity)) e

  -- Windows over equal cells are equal.
  pub window-ext :
      (m m' : Memory A) (capacity at at' n : ℕ)
      → ((i : ℕ) → i < n → m ((at + i) % capacity) ≡ m' ((at' + i) % capacity))
      → window m capacity at n ≡ window m' capacity at' n
  window-ext m m' capacity at at' zero h = refl
  window-ext m m' capacity at at' (suc n) h =
      ap₂ ◌∷◌
        (shift_start m capacity at (m' (at' % capacity))
          (h 0 (omega arith) ∙ sym (shift_start m' capacity at' _ refl)))
        (window-ext m m' capacity (suc at) (suc at') n λ i p.
          shift_next m capacity at i ∙ h (suc i) (omega arith) ∙ sym (shift_next m' capacity at' i))

  -- A window whose cells are those of a list is the list.
  pub window-list :
      (m : Memory A) (capacity at : ℕ) (xs : List A)
      → ((i : ℕ) (d : A) → i < length xs → m ((at + i) % capacity) ≡ get_or xs i d)
      → window m capacity at (length xs) ≡ xs
  window-list m capacity at [] h = refl
  window-list m capacity at (x ∷ xs) h =
      ap₂ ◌∷◌ (shift_start m capacity at x (h 0 x (omega arith))) (
        window-list m capacity (suc at) xs
          λ i d p. shift_next m capacity at i ∙ h (suc i) d (omega arith))

  -- Only the counter's remainder matters.
  pub window-mod :
      (m : Memory A) (capacity at at' n : ℕ)
      → at % capacity ≡ at' % capacity
      → window m capacity at n ≡ window m capacity at' n
  window-mod m capacity at at' n e = window-ext m m capacity at at' n λ i p. ap m (
      sym (mod-add-mod at capacity i) ∙ ap (λ k. (k + i) % capacity) e ∙ mod-add-mod at' capacity i)

  -- Without a wrap, a load is a window.
  load-window :
      (m : Memory A) (capacity at off n : ℕ)
      → at % capacity ≡ off
      → off + n ≤ capacity
      → 0 < capacity
      → load m off n ≡ window m capacity at n
  load-window m capacity at off zero e h p = refl
  load-window m capacity at off (suc zero) e h p = rw e refl
  load-window m capacity at off (suc (suc n)) e h p =
      let next : (at + 1) % capacity ≡ suc off =
        omega (arith, mod-add_small at 1 capacity (omega arith)) in
      let next' : suc at % capacity ≡ suc off =
        let e' : suc at ≡ at + 1 = omega arith in ap (λ k. k % capacity) e' ∙ next in
      ap₂ ◌∷◌ (ap m (sym e))
        (load-window m capacity (suc at) (suc off) (suc n) next' (omega arith) p)

  copy_out_at-window :
      (m : Memory A) (capacity at off n : ℕ)
      → 0 < capacity
      → at % capacity ≡ off
      → n ≤ capacity
      → copy_out_at m capacity off n ≡ window m capacity at n
  copy_out_at-window m capacity at off n pos e h = elim (dec_lt n (capacity - off)) [
    | yes short ↦
        rw (lt→ltb _ _ short, le→ltb n n (omega arith))
          (load-window m capacity at off n e (omega arith) pos)
    | no long ↦ elim (dec_lt (capacity - off) n) [
      | yes wrapped ↦
          rw (le→ltb n (capacity - off) (omega arith), lt→ltb _ _ wrapped) (wraps wrapped)
      | no fits ↦
          rw (le→ltb n (capacity - off) (omega arith), le→ltb (capacity - off) n (omega arith))
            (let same : capacity - off ≡ n = omega arith in
              rw same (load-window m capacity at off n e (omega arith) pos))
    ]
  ]
    where
      below : off < capacity
      below = rw (← e) (mod-lt at pos)

      wraps :
          capacity - off < n
          → load m off (capacity - off) ++ load m 0 (n - (capacity - off)) ≡ window m capacity at n
      wraps long =
          let first = capacity - off in
          let total : n ≡ first + (n - first) = omega arith in
          let back : (at + first) % capacity ≡ 0 = omega (
            arith,
            below,
            mod-add_wrap at first capacity (omega (arith, below)) (omega (arith, below)),
          ) in
          ap₂ ◌++◌ (load-window m capacity at off first e (omega (arith, below)) pos)
            (load-window m capacity (at + first) 0 (n - first) back (omega arith) pos)
          ∙ sym (ap (window m capacity at) total ∙ window-append m capacity at first (n - first))

  -- `copyOut` reads the window.
  pub copy_out-window :
      (m : Memory A) (k at n : ℕ) → n ≤ 2 ^ k → copy_out m (2 ^ k) at n ≡ window m (2 ^ k) at n
  unfolding copy_out
  copy_out-window m k at n h =
      rw (mask-mod k at) (copy_out_at-window m (2 ^ k) at (at % 2 ^ k) n (pow_pos k) refl h)

  cell_after :
      (m : Memory A) (capacity off i : ℕ) (src : List A)
      → length src ≤ capacity
      → off ≤ i
      → i < capacity
      → copy_in_at m capacity off src i ≡ get_or src (i - off) (m i)
  cell_after m capacity off i src h p q = ground (
    arith,
    get_or-take (length src) src (i - off) (m i),
    get_or-take (capacity - off) src (i - off) (m i),
    take_all (length src) src,
    get_or-drop (capacity - off) src i (get_or src (i - off) (m i)),
    get_or_out src (capacity - off + i) (get_or src (i - off) (m i)),
  )

  cell_wrapped :
      (m : Memory A) (capacity off i : ℕ) (src : List A)
      → length src ≤ capacity
      → off < capacity
      → i < off
      → copy_in_at m capacity off src i ≡ get_or src (i + capacity - off) (m i)
  cell_wrapped m capacity off i src h p q =
      let e : capacity - off + i ≡ i + capacity - off = omega arith in
      ground (
        arith,
        get_or-drop (capacity - off) src i (m i),
        get_or_out src (i + capacity - off) (m i),
        ap (λ (n : ℕ). get_or src n (m i)) e,
      )

  cell_outside :
      (m : Memory A) (capacity off i : ℕ) (src : List A)
      → length src ≤ capacity
      → off < capacity
      → capacity ≤ i
      → copy_in_at m capacity off src i ≡ m i
  cell_outside m capacity off i src h p q = ground (
    arith,
    length-take (length src) src,
    length-take (capacity - off) src,
    length-drop (capacity - off) src,
    get_or_out (take (length src) src) (i - off) (m i),
    get_or_out (take (capacity - off) src) (i - off) (m i),
    get_or_out (drop (capacity - off) src) i (m i),
  )

  -- `copyIn` puts the j-th new element j places on, and leaves the other cells of the ring alone.
  pub copy_in-cell :
      (m : Memory A) (k at j : ℕ) (src : List A)
      → length src ≤ 2 ^ k
      → j < 2 ^ k
      → copy_in m (2 ^ k) at src ((at + j) % 2 ^ k) ≡ get_or src j (m ((at + j) % 2 ^ k))
  unfolding copy_in
  copy_in-cell m k at j src h p = rw (mask-mod k at) (elim (dec_lt (at % 2 ^ k + j) (2 ^ k)) [
    | yes short ↦
        let e : (at + j) % 2 ^ k ≡ at % 2 ^ k + j = mod-add_small at j (2 ^ k) short in
        rw e (
          cell_after m (2 ^ k) (at % 2 ^ k) (at % 2 ^ k + j) src h (omega arith) short
          ∙ ap (λ n. get_or src n (m (at % 2 ^ k + j))) (omega arith))
    | no long ↦
        let e : (at + j) % 2 ^ k ≡ at % 2 ^ k + j - 2 ^ k =
          mod-add_wrap at j (2 ^ k) (omega arith) (omega (arith, low)) in
        rw e (
          cell_wrapped m (2 ^ k) (at % 2 ^ k) (at % 2 ^ k + j - 2 ^ k) src h low (omega arith)
          ∙ ap (λ n. get_or src n (m (at % 2 ^ k + j - 2 ^ k))) (omega (arith, low)))
  ])
    where
      low : at % 2 ^ k < 2 ^ k
      low = mod-lt at (pow_pos k)

  -- No cell past the capacity is touched.
  pub copy_in_frame :
      (m : Memory A) (k at i : ℕ) (src : List A)
      → length src ≤ 2 ^ k
      → 2 ^ k ≤ i
      → copy_in m (2 ^ k) at src i ≡ m i
  unfolding copy_in
  copy_in_frame m k at i src h p =
      rw (mask-mod k at) (cell_outside m (2 ^ k) (at % 2 ^ k) i src h (mod-lt at (pow_pos k)) p)

  -- After `copyIn` the window over the new elements is exactly those.
  pub window-copy_in :
      (m : Memory A) (k at : ℕ) (src : List A)
      → length src ≤ 2 ^ k
      → window (copy_in m (2 ^ k) at src) (2 ^ k) at (length src) ≡ src
  window-copy_in m k at src h = window-list (copy_in m (2 ^ k) at src) (2 ^ k) at src λ i d p.
      copy_in-cell m k at i src h (omega arith) ∙ get_or_in src i (m ((at + i) % 2 ^ k)) d p

  -- The elements that were there before it stay, as long as all fit.
  pub window-copy_in_before :
      (m : Memory A) (k at n : ℕ) (src : List A)
      → n + length src ≤ 2 ^ k
      → window (copy_in m (2 ^ k) (at + n) src) (2 ^ k) at n ≡ window m (2 ^ k) at n
  window-copy_in_before m k at n src h =
      window-ext (copy_in m (2 ^ k) (at + n) src) m (2 ^ k) at at n λ i p.
        let j : ℕ = 2 ^ k - n + i in
        let round : at + n + j ≡ at + i + 2 ^ k = omega arith in
        let place : (at + n + j) % 2 ^ k ≡ (at + i) % 2 ^ k =
          ap (λ t. t % 2 ^ k) round ∙ add-mod_right (at + i) (2 ^ k) in
        subst (λ t. copy_in m (2 ^ k) (at + n) src t ≡ m t) place
          (copy_in-cell m k (at + n) j src (omega arith) (omega arith)
            ∙ get_or_out src j (m ((at + n + j) % 2 ^ k)) (omega arith))

  -- `copyIn` at a counter of the same remainder does the same.
  pub copy_in_mod :
      (m : Memory A) (k at at' : ℕ) (src : List A)
      → at % 2 ^ k ≡ at' % 2 ^ k
      → copy_in m (2 ^ k) at src ≡ copy_in m (2 ^ k) at' src
  unfolding copy_in
  copy_in_mod m k at at' src e =
      ap (λ off. copy_in_at m (2 ^ k) off src) (mask-mod k at ∙ e ∙ sym (mask-mod k at'))
