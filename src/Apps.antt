-- ===== src/Apps.antt =====
-- The two programs: apps/phone-core (the phone's runtime) and apps/service (the service on the PC).
pub mod Phone
pub mod Service
pub mod Link
pub mod Tests
