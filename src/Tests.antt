-- ===== src/Tests.antt =====
-- Concrete inputs, and each theorem at one of them.
pub mod Demo
pub mod Core
pub mod Rows
pub mod Events
pub mod Consoles
pub mod Accepting
pub mod Calls
pub mod Runs
pub mod News
