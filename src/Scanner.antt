-- ===== src/Scanner.antt =====
-- The scanner of crates/dustnet-core/src/scanner.
pub mod Display
pub mod Ensures
pub mod Escape
pub mod Lexer
pub mod Progress
pub mod Steps
pub mod Tags
mod Tests
pub mod Token
pub mod Total
pub mod Values
