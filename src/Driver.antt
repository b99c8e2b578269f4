-- ===== src/Driver.antt =====
-- windows/driver and the service's link to it: the shared ring, its claim, and the stream.
pub mod Status
pub mod Ring
pub mod Claim
pub mod Stream
pub mod Control
pub mod Life
pub mod Adapter
pub mod Attach
pub mod Miniport
pub mod Tests
