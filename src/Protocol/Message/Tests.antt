-- ===== src/Protocol/Message/Tests.antt =====
-- crates/dustnet-core/src/protocol/message.rs: what the tests of the messages share.
mod Requests
mod Responses
use dustnet.Base.{ℕ, Bool, true}

abbrev pub granted : ℕ → Bool
granted n = true
