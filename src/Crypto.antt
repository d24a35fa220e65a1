-- ===== src/Crypto.antt =====
-- crates/deltaship-crypto: hashes of content and of files, and what is signed.
pub mod Hashing
pub mod Signing
