-- ===== src/Core.antt =====
-- crates/deltaship-core: the types that the client, the server and the publisher share.
pub mod Version
pub mod Platform
pub mod Update
