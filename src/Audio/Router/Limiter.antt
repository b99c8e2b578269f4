-- ===== src/Audio/Router/Limiter.antt =====
-- router.cpp: what `mixAndWrite` puts into a frame stays within the ceiling.
use smartmic_windows.Prelude.{◌≡◌, true, ◌⊎◌}
use smartmic_windows.Audio.Float.{Float}
use smartmic_windows.Audio.Router.{Router}

-- Not a number, or between the negative of the ceiling and the ceiling.
abbrev pub InLimits : (f : Float) → f.F → Type 0
InLimits f s = (f.is_nan s ≡ true) ⊎ ((f.le (f.neg f.ceiling) s ≡ true) × (f.le s f.ceiling ≡ true))
