-- ===== src/Media/JitterBuffer/Queue.antt =====
-- jitter_buffer.cpp: the map operations on the queue.
use smartmic_windows.Prelude.{
  ℕ, suc, ◌-◌, ◌≤◌, ◌<◌, ◌≡◌, refl, Bool, true, false, [], ◌∷◌, some, arith, length, ◌==◌, ==_iff,
  lt→ltb, le→ltb, if◌then◌else◌,
}
use native.Mathlib.Decide.{dec_lt}
use smartmic_windows.Media.JitterBuffer.{Queue, Entry, find, count, emplace, erase, erase_first}

pub length-emplace : (seq : ℕ) (e : Entry) (q : Queue) → length (emplace seq e q) ≡ suc (length q)
length-emplace seq e [] = refl
length-emplace seq e ((k, x) ∷ q) = ground (arith, length-emplace seq e q)

pub length-erase :
    (seq : ℕ) (q : Queue) → count seq q ≡ true → suc (length (erase seq q)) ≡ length q
length-erase seq [] h = ground arith
length-erase seq ((k, x) ∷ q) h = ground (arith, length-erase seq q)

pub length-erase_first : (q : Queue) → length (erase_first q) ≡ length q - 1
length-erase_first [] = omega arith
length-erase_first (x ∷ q) = omega arith

pub count-find : (seq : ℕ) (q : Queue) (e : Entry) → find seq q ≡ some e → count seq q ≡ true
count-find seq [] e h = ground arith
count-find seq ((k, x) ∷ q) e h = ground (arith, count-find seq q e)

-- Every key is above a bound, and the keys increase.
abbrev pub Above : ℕ → Queue → Type 0
Above n [] = Unit
Above n ((k, x) ∷ q) = (n < k) × Above k q

abbrev pub Sorted : Queue → Type 0
Sorted [] = Unit
Sorted ((k, x) ∷ q) = Above k q

Above-weaken : (m n : ℕ) (q : Queue) → m ≤ n → Above n q → Above m q
Above-weaken m n [] h a = tt
Above-weaken m n ((k, x) ∷ q) h a = (omega (arith, a.0), a.1)

Above-emplace :
    (n seq : ℕ) (e : Entry) (q : Queue)
    → n < seq
    → Above n q
    → count seq q ≡ false
    → Above n (emplace seq e q)
Above-emplace n seq e [] h a c = (h, tt)
Above-emplace n seq e ((k, x) ∷ q) h a c = elim (dec_lt seq k) [
  | yes before ↦ rw (lt→ltb seq k before) (h, (before, a.1))
  | no after ↦
      let other : (seq == k) ≡ false = ground arith in
      let rest : count seq q ≡ false = ground arith in
      rw (le→ltb seq k (omega arith))
        (a.0, Above-emplace k seq e q (ground (arith, ==_iff seq k)) a.1 rest)
]

pub Sorted-emplace :
    (seq : ℕ) (e : Entry) (q : Queue) → Sorted q → count seq q ≡ false → Sorted (emplace seq e q)
Sorted-emplace seq e [] s c = tt
Sorted-emplace seq e ((k, x) ∷ q) s c = elim (dec_lt seq k) [
  | yes before ↦ rw (lt→ltb seq k before) (before, s)
  | no after ↦
      let rest : count seq q ≡ false = ground arith in
      rw (le→ltb seq k (omega arith))
        (Above-emplace k seq e q (ground (arith, ==_iff seq k)) s rest)
]

Above-Sorted : (n : ℕ) (q : Queue) → Above n q → Sorted q
Above-Sorted n [] a = tt
Above-Sorted n ((k, x) ∷ q) a = a.1

Above-erase : (n seq : ℕ) (q : Queue) → Above n q → Above n (erase seq q)
Above-erase n seq [] a = tt
Above-erase n seq ((k, x) ∷ q) a = go (seq == k) (Above-erase k seq q a.1)
  where
    go : (b : Bool) → Above k (erase seq q) → Above n (if b then q else (k, x) ∷ erase seq q)
    go true r = Above-weaken n k q (omega (arith, a.0)) a.1
    go false r = (a.0, r)

pub Sorted-erase : (seq : ℕ) (q : Queue) → Sorted q → Sorted (erase seq q)
Sorted-erase seq [] s = tt
Sorted-erase seq ((k, x) ∷ q) s = go (seq == k)
  where
    go : (b : Bool) → Sorted (if b then q else (k, x) ∷ erase seq q)
    go true = Above-Sorted k q s
    go false = Above-erase k seq q s

pub Sorted-erase_first : (q : Queue) → Sorted q → Sorted (erase_first q)
Sorted-erase_first [] s = tt
Sorted-erase_first ((k, x) ∷ q) s = Above-Sorted k q s

count-Above : (seq n : ℕ) (q : Queue) → Above n q → seq ≤ n → count seq q ≡ false
count-Above seq n [] a h = refl
count-Above seq n ((k, x) ∷ q) a h = ground (arith, a.0, count-Above seq k q a.1, ==_iff seq k)

pub count-erase_first :
    (seq : ℕ) (q : Queue) → count seq q ≡ false → count seq (erase_first q) ≡ false
count-erase_first seq [] c = refl
count-erase_first seq ((k, x) ∷ q) c = ground arith
