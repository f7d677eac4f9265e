-- ===== src/Presence.antt =====
-- crosspresence and crossnotify: presence told to the account core, and presence of friends on other
-- platforms told to the consoles.
pub mod Publisher
pub mod Notify
pub mod Foreign
pub mod Labels
