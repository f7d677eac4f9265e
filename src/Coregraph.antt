-- ===== src/Coregraph.antt =====
-- coregraph/coregraph.go: the client of the account core.
pub mod Services
pub mod Client
pub mod Social
pub mod Links
