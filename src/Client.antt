-- ===== src/Client.antt =====
-- The client: where it may install an update.
pub mod InstallPath
pub mod Patcher
