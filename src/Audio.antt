-- ===== src/Audio.antt =====
-- windows/audio-service: the portable core of the audio service.
pub mod StateMachine
pub mod RingBuffer
pub mod Float
pub mod Crossfade
pub mod Io
pub mod Router
pub mod Tests
pub mod DeviceRegistry
