-- ===== src/Audio/Crossfade/Landing.antt =====
-- crossfade.cpp: a fade ends after the samples it was given, exactly on its target.
use smartmic_windows.Prelude.{
  ℕ, zero, suc, ◌≤◌, ◌<◌, ◌^◌, ◌≡◌, refl, ap, ◌∙◌, true, false, ◌⊎◌, inl, inr, arith, max,
}
use smartmic_windows.Audio.Float.{Float, FloatLaws, InUnit, clamp01}
use smartmic_windows.Audio.Crossfade.{
  Fade, move_samples, fade_to, advance, advance_by, millis_to_samples,
}

module _ {f : Float} (laws : FloatLaws f) where
  pub clamp01-InUnit : (v : f.F) → f.is_nan v ≡ false → InUnit f (clamp01 f v)
  clamp01-InUnit v number = ground (
    arith, number, laws.zero_zero, laws.one_zero, laws.one_one, laws.zero_number, laws.one_number,
  )

  pub clamp01_of_InUnit : (v : f.F) → InUnit f v → clamp01 f v ≡ v
  clamp01_of_InUnit v h = ground arith

  -- Position and target lie between 0 and 1, and the step is a number.
  pub record IsValid (c : Fade f) : Type 0 where
    pub position_in : InUnit f c.position
    pub target_in : InUnit f c.target
    pub step_number : f.is_nan c.step ≡ false

  pub fade_to-IsValid :
      (c : Fade f) (target : f.F) (duration : ℕ)
      → f.is_nan target ≡ false
      → IsValid c
      → IsValid (fade_to f c target duration)
  unfolding fade_to
  fade_to-IsValid c target duration number v =
      let goal = clamp01-InUnit target number in
      let distance = f.sub (clamp01 f target) c.position in
      let step =
        laws.div_number (clamp01 f target) c.position (move_samples f duration distance) goal
          v.position_in (omega arith) in
      record {
        position_in = ground (arith, v.position_in);
        target_in = ground (arith, goal);
        step_number = ground (arith, step, laws.zero_number);
      }

  pub advance-IsValid : (c : Fade f) → IsValid c → IsValid (advance f c)
  unfolding advance
  advance-IsValid c v =
      let on = clamp01-InUnit c.target v.target_in.0 in
      let sum =
        clamp01-InUnit (f.add c.position c.step)
          (laws.add_number c.position c.step v.position_in v.step_number) in
      record {
        position_in = ground (arith, v.position_in, on, sum);
        target_in = ground (arith, v.target_in);
        step_number = ground (arith, v.step_number);
      }

  advance_rest : (c : Fade f) → c.remaining ≡ 0 → advance f c ≡ c
  unfolding advance
  advance_rest c h = ground arith

  advance_by_rest : (n : ℕ) (c : Fade f) → c.remaining ≡ 0 → advance_by f n c ≡ c
  unfolding advance_by
  advance_by_rest zero c h = refl
  advance_by_rest (suc n) c h = ap (advance_by f n) (advance_rest c h) ∙ advance_by_rest n c h

  advance_more :
      (c : Fade f) (k : ℕ)
      → c.remaining ≡ suc (suc k)
      → ((advance f c).remaining ≡ suc k) × ((advance f c).target ≡ c.target)
  unfolding advance
  advance_more c k h = ground arith

  advance_last :
      (c : Fade f)
      → IsValid c
      → c.remaining ≡ 1
      → ((advance f c).remaining ≡ 0) × ((advance f c).position ≡ c.target)
  unfolding advance
  advance_last c v h = ground (arith, clamp01_of_InUnit c.target v.target_in)

  -- A fade in progress with `remaining` samples left stands exactly on its target after that many
  -- samples or more, and is no longer active.
  pub advance_by_lands :
      (n : ℕ) (c : Fade f)
      → IsValid c
      → 0 < c.remaining
      → c.remaining ≤ n
      → ((advance_by f n c).position ≡ c.target) × ((advance_by f n c).remaining ≡ 0)
  unfolding advance_by
  advance_by_lands zero c v p h = absurd (omega arith)
  advance_by_lands (suc n) c v p h =
      go c.remaining refl (advance_by_lands n (advance f c) (advance-IsValid c v))
    where
      Landed : Type 0
      Landed =
          ((advance_by f n (advance f c)).position ≡ c.target)
          × ((advance_by f n (advance f c)).remaining ≡ 0)

      go :
          (k : ℕ)
          → c.remaining ≡ k
          → (0 < (advance f c).remaining
              → (advance f c).remaining ≤ n
              → ((advance_by f n (advance f c)).position ≡ (advance f c).target)
                × ((advance_by f n (advance f c)).remaining ≡ 0))
          → Landed
      go zero e ih = absurd (omega arith)
      go (suc zero) e ih =
          let (done, there) = advance_last c v e in
          let still = advance_by_rest n (advance f c) done in
          (ap (λ x. x.position) still ∙ there, ap (λ x. x.remaining) still ∙ done)
      go (suc (suc k)) e ih =
          let (left, same) = advance_more c k e in
          let landed = ih (omega (arith, left)) (omega (arith, left)) in (landed.0 ∙ same, landed.1)

  full_samples : ℕ → ℕ
  full_samples duration = max 1 (millis_to_samples duration)

  fade_to-remaining :
      (c : Fade f) (target : f.F) (duration : ℕ)
      → f.is_nan target ≡ false
      → full_samples duration ≤ 2 ^ 24
      → IsValid c
      → (fade_to f c target duration).remaining ≤ full_samples duration
  unfolding fade_to full_samples
  fade_to-remaining c target duration number h v = ground (
    arith,
    laws.ceil_le (full_samples duration) (clamp01 f target) c.position,
    clamp01-InUnit target number,
  )

  fade_to-target :
      (c : Fade f) (target : f.F) (duration : ℕ)
      → (fade_to f c target duration).target ≡ clamp01 f target
  unfolding fade_to
  fade_to-target c target duration = ground arith

  fade_to-idle :
      (c : Fade f) (target : f.F) (duration : ℕ)
      → (fade_to f c target duration).remaining ≡ 0
      → (f.eq (f.sub (clamp01 f target) c.position) f.zero ≡ true)
        × ((fade_to f c target duration).position ≡ c.position)
  unfolding fade_to
  fade_to-idle c target duration h = ground arith

  -- A fade of `duration` milliseconds to a target that is a number, from a position between 0 and 1 by
  -- a step that is a number, where the duration is at most 2 ^ 24 samples, which a `float` counts
  -- exactly, is over after that many samples (at least one): then it is not active and stands exactly
  -- on the clamped target, unless it was asked to move by a distance that compares equal to zero, and
  -- then it has not moved.
  pub fade_lands :
      (c : Fade f) (target : f.F) (duration n : ℕ)
      → f.is_nan target ≡ false
      → IsValid c
      → max 1 (millis_to_samples duration) ≤ n
      → max 1 (millis_to_samples duration) ≤ 2 ^ 24
      → let c' = advance_by f n (fade_to f c target duration) in
        (c'.remaining ≡ 0)
        × ((c'.position ≡ clamp01 f target)
            ⊎ ((f.eq (f.sub (clamp01 f target) c.position) f.zero ≡ true)
                × (c'.position ≡ c.position)))
  unfolding full_samples
  fade_lands c target duration n number v h small = go (fade_to f c target duration).remaining refl
    where
      c' : Fade f
      c' = fade_to f c target duration

      go :
          (k : ℕ)
          → c'.remaining ≡ k
          → ((advance_by f n c').remaining ≡ 0)
            × (((advance_by f n c').position ≡ clamp01 f target)
                ⊎ ((f.eq (f.sub (clamp01 f target) c.position) f.zero ≡ true)
                    × ((advance_by f n c').position ≡ c.position)))
      go zero e =
          let still = advance_by_rest n c' e in
          let (same, held) = fade_to-idle c target duration e in
          (ap (λ x. x.remaining) still ∙ e, inr (same, ap (λ x. x.position) still ∙ held))
      go (suc k) e =
          let (there, done) =
            advance_by_lands n c' (fade_to-IsValid c target duration number v) (omega (arith, e))
              (omega (arith, fade_to-remaining c target duration number small v)) in
          (done, inl (there ∙ fade_to-target c target duration))
