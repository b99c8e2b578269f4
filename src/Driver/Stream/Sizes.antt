-- ===== src/Driver/Stream/Sizes.antt =====
-- minwavestream.cpp: the sizes that a buffer gets.
use smartmic_windows.Prelude.{
  ◌↔◌, ne→eqb, ℕ, zero, suc, ◌+◌, ◌-◌, ◌*◌, ◌/◌, ◌%◌, ◌^◌, ◌≤◌, ◌<◌, ◌≡◌, ◌≢◌, ◌⊎◌, inl, inr, refl,
  ap, sym, Bool, true, false, none, some, replicate, arith, ◌==◌, ◌∙◌,
}
use native.Mathlib.Decide.{dec_lt}
use native.Mathlib.Nat.{
  div-eq_of_eq-mul_right, mod-lt, mod-eq_of_lt, div-add-mod, mul-div-le, mul-le-mul_left,
}
use smartmic_windows.Driver.Status.{unsuccessful, success}
use smartmic_windows.Driver.Stream.{
  Stream, rounded_size, place_buffer, grain, with_buffer, allocate,
}
use smartmic_windows.Driver.Stream.Fits.{IsPeriodic}

-- Where twice the count is a word, the size is that many equal periods of whole frames.
pub rounded_size-divides :
    (count requested size : ℕ)
    → count ≢ 0
    → count < 2 ^ 31
    → rounded_size count requested ≡ some size
    → (size / count ≡ 2 * (requested / (2 * count))) × (size ≡ count * (size / count))
unfolding rounded_size
rounded_size-divides count requested size h lt found =
    let k = requested / (2 * count) in
    let word : grain count ≡ 2 * count = omega arith in
    let exact : size ≡ count * (2 * k) =
      ground (arith, word, found, div-add-mod requested (2 * count)) in
    let quotient : size / count ≡ 2 * k = div-eq_of_eq-mul_right (omega arith) exact in
    (quotient, exact ∙ ap (λ (t : ℕ). count * t) (sym quotient))

-- A size that the rounding gives is that many equal periods, or too small for any.
pub rounded_size-IsPeriodic :
    (count requested size : ℕ)
    → count ≢ 0
    → requested < 2 ^ 32
    → rounded_size count requested ≡ some size
    → size ≢ 0
    → (size / count ≡ 0) ⊎ IsPeriodic size (size / count) 0
rounded_size-IsPeriodic count requested size h hr found some_bytes = elim (dec_lt count (2 ^ 31)) [
  | yes lt ↦ inr (record {
    periods = count;
    done = 0;
    whole = (rounded_size-divides count requested size h lt found).1;
    at_period = omega arith;
    before_end = omega arith;
    word = word;
  })
  | no not_lt ↦ large (size / count) refl (omega arith)
]
  where
    word : size < 2 ^ 32
    word = unfold rounded_size in ground arith

    large :
        (q : ℕ)
        → q ≡ size / count
        → 2 ^ 31 ≤ count
        → (size / count ≡ 0) ⊎ IsPeriodic size (size / count) 0
    large zero e many = inl (sym e)
    large (suc zero) e many = inr (record {
      periods = size;
      done = 0;
      whole = omega (arith, ap (λ (t : ℕ). size * t) e);
      at_period = omega arith;
      before_end = omega arith;
      word = word;
    })
    large (suc (suc q)) e many =
        let twice : count * 2 ≤ count * (size / count) =
          mul-le-mul_left {m = 2} {n = size / count} count (omega (arith, e)) in
        absurd (omega (arith, twice, mul-div-le size count, word))

-- A buffer that is asked for with a count of notifications below 2 ^ 31, not zero, where memory can
-- be had: too little for a frame in each period is refused and changes nothing; otherwise the buffer
-- has the largest size, no larger than requested, that is that many periods of whole frames, and the
-- count times the bytes per notification is the whole of it; so many zero bytes are the buffer, and
-- their number is the one reported.
pub allocate_lem :
    (count requested : ℕ) (s : Stream)
    → count ≢ 0
    → count < 2 ^ 31
    → (requested < 2 * count → allocate true true count requested s ≡ some (unsuccessful, s))
      × (2 * count ≤ requested
          → (size : ℕ) × (allocate true true count requested s
              ≡ some (success, with_buffer count size s))
            × (size ≡ count * (with_buffer count size s).bytes_per_notification)
            × ((with_buffer count size s).bytes_per_notification ≡ 2 * (requested / (2 * count)))
            × ((with_buffer count size s).buffer ≡ some (replicate size 0))
            × ((with_buffer count size s).buffer_bytes ≡ size)
            × (size ≤ requested)
            × (requested < size + 2 * count))
unfolding allocate rounded_size place_buffer with_buffer
allocate_lem count requested s h lt =
    let word : grain count ≡ 2 * count = omega arith in
    let none : (count == 0) ≡ false = ne→eqb count 0 h in
    (
      λ short. ground (arith, word, none, mod-eq_of_lt short),
      λ enough.
          let size = requested - requested % (2 * count) in
          let bound : requested % (2 * count) < 2 * count = mod-lt requested (omega arith) in
          let found : rounded_size count requested ≡ some size = ground (arith, word) in
          let (quotient, whole) = rounded_size-divides count requested size h lt found in
          (
            size,
            ground (arith, word, none, bound),
            whole,
            quotient,
            refl,
            refl,
            omega arith,
            omega (arith, bound),
          ),
    )

-- The driver divides by zero exactly where the count of notifications is 2 ^ 31 and the size
-- requested is not 0, for all counts of 32 bits.
pub allocate_traps :
    (can_allocate can_map : Bool) (count requested : ℕ) (s : Stream)
    → count < 2 ^ 32
    → allocate can_allocate can_map count requested s ≡ none ↔ ((count ≡ 2 ^ 31) × (requested ≢ 0))
unfolding allocate rounded_size
allocate_traps can_allocate can_map count requested s word = ground arith
