-- ===== src/Protocol/ReplayWindow/History.antt =====
-- replay_window.h: the window decides as if it remembered every number it has accepted.
use smartmic_windows.Prelude.{
  ℕ, ◌-◌, ◌≤◌, ◌<◌, ◌≡◌, refl, sym, ap, ◌∙◌, Bool, true, false, not, List, [], ◌∷◌, arith, leb, ltb,
  ◌==◌, if◌then◌else◌, subst, Bool-cases, inl, inr,
}
use native.Mathlib.Decide.{dec_lt}
use smartmic_windows.Protocol.ReplayWindow.{
  ReplayWindow, started, moved_up, marked, accept, reset, set_bit, shift_left, no_bits,
}

abbrev pub has : ℕ → List ℕ → Bool
has s [] = false
has s (x ∷ xs) = if s == x then true else has s xs

-- The window stands for the list of all numbers accepted so far.
pub record Tracks (width : ℕ) (history : List ℕ) (w : ReplayWindow) : Type 0 where
  pub unused : w.initialised ≡ false → history ≡ []
  pub ceiling : (s : ℕ) → has s history ≡ true → s ≤ w.highest
  pub bits :
      (i : ℕ)
      → w.initialised ≡ true
      → i < width
      → i ≤ w.highest
      → w.seen i ≡ has (w.highest - i) history

-- The decision that remembers everything.
unfoldable pub is_fresh : ℕ → List ℕ → ReplayWindow → ℕ → Bool
is_fresh width history w seq =
    if not w.initialised
    then true
    else if ltb w.highest seq
    then true
    else if ltb (w.highest - seq) width
    then not (has seq history)
    else false

pub reset-Tracks : (width : ℕ) → Tracks width [] reset
reset-Tracks width = record {
  unused = λ e. refl;
  ceiling = λ s e. ground arith;
  bits = λ i e p q. ground arith;
}

seen_at :
    (width : ℕ) (history : List ℕ) (w : ReplayWindow) (seq : ℕ)
    → Tracks width history w
    → seq ≤ w.highest
    → w.highest - seq < width
    → w.initialised ≡ true
    → w.seen (w.highest - seq) ≡ has seq history
seen_at width history w seq t low near used =
    let back : w.highest - (w.highest - seq) ≡ seq = omega arith in
    t.bits (w.highest - seq) used near (omega arith) ∙ ap (λ s. has s history) back

accept-is_fresh :
    (width : ℕ) (history : List ℕ) (w : ReplayWindow) (seq : ℕ)
    → Tracks width history w
    → (accept width w seq).0 ≡ is_fresh width history w seq
unfolding accept is_fresh
accept-is_fresh width history w seq t = elim (dec_lt w.highest seq) [
  | yes newer ↦ ground arith
  | no older ↦ elim (dec_lt (w.highest - seq) width) [
    | no far ↦ ground arith
    | yes near ↦ ground (arith, seen_at width history w seq t (omega arith) near)
  ]
]

-- What is left to show of each way to accept: the bits after it.
first-Tracks : (width seq : ℕ) → Tracks width (seq ∷ []) (started seq)
first-Tracks width seq = record {
  unused = λ e. ground arith;
  ceiling = λ s e. ground arith;
  bits = λ i e p q. ground arith;
}

has_above :
    (width : ℕ) (history : List ℕ) (w : ReplayWindow) (s : ℕ)
    → Tracks width history w
    → w.highest < s
    → has s history ≡ false
has_above width history w s t above = elim (Bool-cases (has s history)) [
  | inl e ↦ absurd (omega (arith, t.ceiling s e))
  | inr e ↦ e
]

newer-bits :
    (width : ℕ) (history : List ℕ) (w : ReplayWindow) (seq i : ℕ)
    → Tracks width history w
    → w.initialised ≡ true
    → w.highest < seq
    → i < width
    → i ≤ seq
    → set_bit 0
        (if leb width (seq - w.highest) then no_bits else shift_left width (seq - w.highest) w.seen)
        i
      ≡ has (seq - i) (seq ∷ history)
newer-bits width history w seq i t used newer p q = elim (dec_lt i (seq - w.highest)) [
  | yes gap ↦ ground (arith, has_above width history w (seq - i) t (omega arith))
  | no old ↦
      let back : w.highest - (i - (seq - w.highest)) ≡ seq - i = omega arith in
      let bit : w.seen (i - (seq - w.highest)) ≡ has (seq - i) history =
        t.bits (i - (seq - w.highest)) used (omega arith) (omega arith)
        ∙ ap (λ s. has s history) back in
      ground (arith, bit)
]

newer-Tracks :
    (width : ℕ) (history : List ℕ) (w : ReplayWindow) (seq : ℕ)
    → Tracks width history w
    → w.initialised ≡ true
    → w.highest < seq
    → Tracks width (seq ∷ history) (moved_up width w seq)
newer-Tracks width history w seq t used newer = record {
  unused = λ e. ground arith;
  ceiling = λ s e. ground (arith, t.ceiling s);
  bits = λ i e p q. newer-bits width history w seq i t used newer p q;
}

older-Tracks :
    (width : ℕ) (history : List ℕ) (w : ReplayWindow) (seq : ℕ)
    → Tracks width history w
    → w.initialised ≡ true
    → seq ≤ w.highest
    → Tracks width (seq ∷ history) (marked w seq)
older-Tracks width history w seq t used older = record {
  unused = λ e. ground arith;
  ceiling = λ s e. ground (arith, t.ceiling s);
  bits = λ i e p q. ground (arith, t.bits i used p q);
}

abbrev After : ℕ → List ℕ → ℕ → Bool × ReplayWindow → Type 0
After width history seq out = Tracks width (if out.0 then seq ∷ history else history) out.1

accept-After :
    (width : ℕ) (history : List ℕ) (w : ReplayWindow) (seq : ℕ)
    → Tracks width history w
    → After width history seq (accept width w seq)
unfolding accept
accept-After width history w seq t = elim (Bool-cases w.initialised) [
  | inr new ↦
      let e : accept width w seq ≡ (true, started seq) = ground arith in
      subst (After width history seq) (sym e) (
        subst (λ h. Tracks width (seq ∷ h) (started seq)) (sym (t.unused new))
          (first-Tracks width seq))
  | inl used ↦ elim (dec_lt w.highest seq) [
    | yes newer ↦
        let e : accept width w seq ≡ (true, moved_up width w seq) = ground arith in
        subst (After width history seq) (sym e) (newer-Tracks width history w seq t used newer)
    | no older ↦ elim (dec_lt (w.highest - seq) width) [
      | no far ↦
          let e : accept width w seq ≡ (false, w) = ground arith in
          subst (After width history seq) (sym e) t
      | yes near ↦ elim (Bool-cases (w.seen (w.highest - seq))) [
        | inl known ↦
            let e : accept width w seq ≡ (false, w) = ground arith in
            subst (After width history seq) (sym e) t
        | inr unknown ↦
            let e : accept width w seq ≡ (true, marked w seq) = ground arith in
            subst (After width history seq) (sym e)
              (older-Tracks width history w seq t used (omega arith))
      ]
    ]
  ]
]

-- A window that stands for the list of all numbers accepted so far decides on a number exactly as if
-- it remembered them all: the first is accepted, and one above the highest; one at most `width - 1`
-- below it is accepted unless it has been accepted before, and an older one is refused. The window
-- then stands for the longer list.
pub accept_refines :
    (width : ℕ) (history : List ℕ) (w : ReplayWindow) (seq : ℕ)
    → Tracks width history w
    → let (ok, w') = accept width w seq in
      (ok ≡ is_fresh width history w seq) × Tracks width (if ok then seq ∷ history else history) w'
accept_refines width history w seq t =
    (accept-is_fresh width history w seq t, accept-After width history w seq t)

abbrev pub NoRepeat : List ℕ → Type 0
NoRepeat [] = Unit
NoRepeat (x ∷ xs) = (has x xs ≡ false) × NoRepeat xs

-- The accepted ones of a list of numbers, the last first, in front of those accepted before.
abbrev pub accepted : ℕ → List ℕ → ReplayWindow → List ℕ → List ℕ
accepted width [] w history = history
accepted width (seq ∷ seqs) w history =
    let (ok, w') = accept width w seq in
    accepted width seqs w' (if ok then seq ∷ history else history)

fresh-has :
    (width : ℕ) (history : List ℕ) (w : ReplayWindow) (seq : ℕ)
    → Tracks width history w
    → is_fresh width history w seq ≡ true
    → has seq history ≡ false
unfolding is_fresh
fresh-has width history w seq t ok = elim (Bool-cases w.initialised) [
  | inr new ↦ ap (has seq) (t.unused new)
  | inl used ↦ elim (dec_lt w.highest seq) [
    | yes newer ↦ has_above width history w seq t newer
    | no older ↦ ground arith
  ]
]

accepted-NoRepeat :
    (width : ℕ) (seqs : List ℕ) (w : ReplayWindow) (history : List ℕ)
    → Tracks width history w
    → NoRepeat history
    → NoRepeat (accepted width seqs w history)
accepted-NoRepeat width [] w history t n = n
accepted-NoRepeat width (seq ∷ seqs) w history t n =
    accepted-NoRepeat width seqs (accept width w seq).1 _ (accept-After width history w seq t)
      (go (accept width w seq).0 refl)
  where
    go :
        (ok : Bool) → (accept width w seq).0 ≡ ok → NoRepeat (if ok then seq ∷ history else history)
    go false e = n
    go true e =
        (fresh-has width history w seq t (sym (accept-is_fresh width history w seq t) ∙ e), n)

-- A number that has been accepted is refused.
pub accept-known :
    (width : ℕ) (history : List ℕ) (w : ReplayWindow) (seq : ℕ)
    → Tracks width history w
    → has seq history ≡ true
    → (accept width w seq).0 ≡ false
accept-known width history w seq t known = elim (Bool-cases (accept width w seq).0) [
  | inr e ↦ e
  | inl e ↦
      let fresh =
        fresh-has width history w seq t (sym (accept-is_fresh width history w seq t) ∙ e) in
      ground arith
]

-- Whatever numbers arrive after a reset, in whatever order and however often, none is accepted twice.
pub never_twice : (width : ℕ) (seqs : List ℕ) → NoRepeat (accepted width seqs reset [])
never_twice width seqs = accepted-NoRepeat width seqs reset [] (reset-Tracks width) tt
