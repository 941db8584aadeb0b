-- ===== src/Protocol/Message.antt =====
-- The bodies of messages, crates/dustnet-core/src/protocol/message.rs.

pub mod Failure
pub mod Fields
pub mod Get
pub mod Input
pub mod Lines
pub mod Page
pub mod Redirect
pub mod Sizes
pub mod Subscribe
mod Tests
pub mod Update
