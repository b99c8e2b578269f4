-- ===== src/Security.antt =====
-- shared/security: the key exchange, and the offers under which a phone may pair.
pub mod Exchange
pub mod Link
pub mod Offers
pub mod Tests
