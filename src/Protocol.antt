-- ===== src/Protocol.antt =====
-- shared/protocol: what the control channel's messages are guarded by.
pub mod ReplayWindow
pub mod Messages
pub mod Codec
pub mod Tests
