-- ===== src/Audio/Io.antt =====
-- windows/audio-service/include/smartmic/audio_io.h: what the router asks of a source and a sink.
use smartmic_windows.Prelude.{ℕ, Bool, List, ◌≡◌, length}
use smartmic_windows.Audio.Float.{Float}

-- `enum class SourceStatus`.
pub data SourceStatus : Type 0 where
  ok underrun failed : SourceStatus

-- `IAudioSource`: `read` gives the status and what it wrote to `out`, which the comment on the
-- class requires to be exactly `samples` values.
pub record AudioSource (f : Float) : Type 1 where
  pub State : Type 0
  pub read : State → ℕ → SourceStatus × List f.F × State
  pub exact : (s : State) (samples : ℕ) → length (read s samples).1 ≡ samples

-- `IAudioSink`: `write` gives whether the frame was taken.
pub record AudioSink (f : Float) : Type 1 where
  pub State : Type 0
  pub write : State → List f.F → Bool × State
