-- ===== src/Tests.antt =====
-- The theorems at concrete inputs: small versions, tables, catalogs and patches.
mod Fixtures
mod Diff
mod Core
mod Limits
mod Catalog
mod Latest
mod Files
mod UpdateCheck
mod Auth
mod Manifest
mod Client
mod Crypto
mod Db
mod Patcher
