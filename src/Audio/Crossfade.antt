-- ===== src/Audio/Crossfade.antt =====
-- windows/audio-service/src/crossfade.cpp and its header, with audio_format.h. The arithmetic is
-- a parameter (Float).
pub mod Landing
use smartmic_windows.Prelude.{
  ℕ, zero, suc, ◌-◌, ◌*◌, ◌/◌, Bool, true, false, max, if◌then◌else◌, ltb, ◌==◌,
}
use smartmic_windows.Audio.Float.{Float, clamp01}

abbrev pub sample_rate : ℕ
sample_rate = 48_000

abbrev pub frame_millis : ℕ
frame_millis = 20

-- `kFrameSamples`, 960.
abbrev pub frame_samples : ℕ
frame_samples = sample_rate / 1000 * frame_millis

abbrev pub millis_to_samples : ℕ → ℕ
millis_to_samples ms = sample_rate * ms / 1000

module _ (f : Float) where
  pub record GainPair : Type 0 where
    pub local : f.F
    pub phone : f.F

  -- The members of `Crossfade`; `GainRamp` has the same four, its `value_` being the position.
  pub record Fade : Type 0 where
    pub position : f.F
    pub target : f.F
    pub step : f.F
    pub remaining : ℕ

  -- `position == target`, at rest.
  abbrev pub resting : f.F → Fade
  resting v = record { position = v; target = v; step = f.zero; remaining = 0 }

  abbrev pub active : Fade → Bool
  active c = ltb 0 c.remaining

  -- The samples that a move over `distance` takes.
  abbrev pub move_samples : ℕ → f.F → ℕ
  move_samples duration distance =
      max 1 (f.ceil (f.mul (f.of_ℕ (max 1 (millis_to_samples duration))) (f.abs distance)))

  -- `Crossfade::fadeTo`, and `GainRamp::rampTo`, which has the same text.
  unfoldable pub fade_to : Fade → f.F → ℕ → Fade
  fade_to c target duration =
      let goal = clamp01 f target in
      let distance = f.sub goal c.position in
      let samples = move_samples duration distance in
      if f.eq distance f.zero
      then record c { target = goal; remaining = 0; step = f.zero }
      else record c { target = goal; remaining = samples; step = f.div distance (f.of_ℕ samples) }

  -- `snapTo` of both classes.
  unfoldable pub snap_to : Fade → f.F → Fade
  snap_to c target = resting (clamp01 f target)

  -- The state change of `next`, which both classes share.
  unfoldable pub advance : Fade → Fade
  advance c =
      let left = c.remaining - 1 in
      if ltb 0 c.remaining
      then record c {
        remaining = left;
        position = clamp01 f (if left == 0 then c.target else f.add c.position c.step);
      }
      else c

  -- What `Crossfade::next` returns, at the position after the step.
  abbrev pub fade_gains : Fade → GainPair
  fade_gains c = let a = f.mul c.position f.half_pi in record { local = f.cos a; phone = f.sin a }

  -- What `GainRamp::next` returns: a raised cosine.
  abbrev pub ramp_gain : Fade → f.F
  ramp_gain c = f.sub f.half (f.mul f.half (f.cos (f.mul (f.mul c.position (f.of_ℕ 2)) f.half_pi)))

  -- `n` calls of `next`.
  unfoldable pub advance_by : ℕ → Fade → Fade
  advance_by zero c = c
  advance_by (suc n) c = advance_by n (advance c)
