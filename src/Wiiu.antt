-- ===== src/Wiiu.antt =====
-- database/wiiu: what the Wii U service keeps in Postgres.
pub mod Profiles
pub mod Requests
pub mod Listing
pub mod Blocks
pub mod Accepting
pub mod Friends
pub mod Updates
pub mod BlockList
