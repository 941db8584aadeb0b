-- ===== src/Protocol.antt =====
-- The protocol layer, crates/dustnet-core/src/protocol.
pub mod Capabilities
pub mod Diagnostic
pub mod Display
pub mod Error
pub mod Holds
pub mod Message
pub mod Origin
pub mod Path
pub mod State
pub mod Uri
pub mod Frame
mod Tests
pub mod Version
