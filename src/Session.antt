-- ===== src/Session.antt =====
-- shared/session: what joins the pairing, the sealed channel and the control messages.
pub mod PeerSession
pub mod Tests
