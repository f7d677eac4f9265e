-- ===== src/Ctr.antt =====
-- database/3ds and the friend handlers of nex/friends-3ds.
pub mod Friends
pub mod Settings
pub mod Profiles
