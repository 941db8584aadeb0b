-- ===== src/Session.antt =====
-- Path-scoped sessions, crates/dustnet-core/src/session.rs.
pub mod Directive
pub mod Store
mod Tests
