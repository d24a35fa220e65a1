-- ===== src/Server.antt =====
-- crates/deltaship-server: the parts of the update server.
pub mod Eviction
pub mod RateLimit
pub mod AuthFailure
pub mod Catalog
pub mod Latest
pub mod Validation
pub mod Paths
pub mod Auth
pub mod Manifest
pub mod UpdateCheck
