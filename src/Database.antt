-- ===== src/Database.antt =====
-- The database and what the code in database/ calls around it.
pub mod Tables
pub mod Backend
pub mod Server
pub mod Rows
