-- ===== src/Script.antt =====
-- src/script.rs: the host's side of a script run.
pub mod Protocol
pub mod Lines
pub mod Exchange
pub mod Record
pub mod Query
mod Tests
