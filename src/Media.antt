-- ===== src/Media.antt =====
-- shared/media: the sealed channel and the jitter buffer that the phone's audio passes through.
pub mod Bytes
pub mod SecureChannel
pub mod JitterBuffer
pub mod Packets
pub mod PhoneSource
pub mod Tests
