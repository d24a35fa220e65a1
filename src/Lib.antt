-- ===== src/Lib.antt =====
-- deltaship: the delivery of software updates as binary diffs.
--
-- A publisher uploads versions of an app to a server, which keeps a catalog of each app and the
-- files of its versions. A client asks the server whether there is an update, downloads a diff or
-- the whole binary, applies the diff to its old binary and checks the result. The development
-- models the parts that decide: the version order, the patch applier, the hashes and signed
-- messages, the databases of the publisher and of the client, the server's catalog, its update
-- check, its authentication and its two limiters, and the client's check of where it installs and
-- its run of an update. Paths are from the root of the repository.
--
--   Prelude: what the parts share. Numbers are native, a byte and a character are numbers, a text
--     is the list of its bytes, a map is an association list, Result is a value with the chains
--     of the ? operator.
--
--   Core/Version, Core/Version/Order: crates/deltaship-core/src/version.rs (version_eq is
--     PartialEq::eq, cmp is Ord::cmp). Core/Platform: crates/deltaship-core/src/binary.rs
--     (as_str, from_str). Core/Update: crates/deltaship-core/src/update.rs.
--
--   Diff/Words, Diff/Apply: crates/deltaship-diff/src/apply.rs. bounded_patch runs patch_loop,
--     whose body is patch_round. The loop has one round of fuel more than the patch has bytes; a
--     round reads the 24 bytes of a control record, so the fuel never runs out, as
--     Diff/Apply/Bounds has it. Diff/Blocks says what a patch means, block by block, and
--     Diff/Apply/Refines relates the two. Diff/Compress: crates/deltaship-diff/src/compress.rs.
--
--   Crypto/Hashing: crates/deltaship-crypto/src/hashing.rs (to_hex, from_hex, hash_file_generic).
--     The loop of hash_file_generic has one round of fuel more than the file has bytes, as each
--     round but the last takes a byte. Crypto/Signing: signing_payload of
--     crates/deltaship-crypto/src/signing.rs.
--
--   Db/Table, Db/Models: crates/deltaship-db/src/models.rs, and the statements UPDATE and DELETE
--     on a list of rows. Db/Publisher, Db/Publisher/Jobs: crates/deltaship-db/src/publisher.rs.
--     Db/Client, Db/Client/History, Db/Client/Backups: crates/deltaship-db/src/client.rs. A table
--     is the list of its rows, the newest first. The constraints of schema.rs are checks of the
--     insertions, with the errors that sqlx reports, and ON DELETE CASCADE is part of the
--     deletions. An operation that fails leaves the database as it was, as a statement and a
--     transaction do. Identifiers and times that an operation makes up are arguments.
--
--   Server/Eviction, Server/RateLimit, Server/AuthFailure:
--     crates/deltaship-server/src/rate_limit.rs. A call takes the time as an argument and runs
--     under the limiter's lock, so that a history is a sequence of calls. The order in which a
--     hash map is iterated is the order of the association list, which the theorems leave open.
--
--   Server/Catalog, Server/Latest, Server/Paths: crates/deltaship-server/src/storage.rs and
--     models.rs. An operation is one step on the value of the file. update_catalog_atomic and
--     set_latest_version hold the mutex of the app from their read to the rename of the new file;
--     delete_version holds only the lock on the file, and its interleavings with the others are
--     not modelled. The binary search of the catalog has the length of the list as fuel.
--
--   Server/Manifest: the manifests of the same file (update_manifest, add_diff_to_manifest).
--
--   Server/Auth: crates/deltaship-server/src/auth.rs with client_ip of rate_limit.rs and
--     Publisher of state.rs. require_api_key gives the state after the request, and the publisher
--     that the request goes on with, or the status code of its refusal. It reads the clock twice,
--     so it takes two times.
--
--   Server/Validation: crates/deltaship-server/src/validation.rs. Server/UpdateCheck:
--     crates/deltaship-server/src/routes/update.rs, where check_update is the handler and answer
--     what follows the reading of the request.
--
--   Client/InstallPath: crates/deltaship-client/src/patcher.rs (validate_install_path). What it
--     asks of the file system and of paths is a record.
--
--   Client/Patcher, with Sources, Execute, Update and Rollback: the rest of that file
--     (verify_backup_signature, execute_update, apply_update, rollback_to_backup and what they
--     call). A step takes the files, the database and the metrics to a result and their next
--     state, and an error keeps what was done before it. Env has what is asked of the network,
--     the file system, the crates and the clock, and what other programs do to the files at four
--     moments: after the checksum of a diff, between the checks of the checksum and of the
--     signature of the new file, before it is copied to its place, and between that copy and the
--     last check. The version of an update is its text.
--
--   Tests: the theorems at concrete inputs.
--
-- Machine words: a usize and a u64 have 64 bits, checked sums say so in checked_add, and the sums
-- and products that wrap in a release build are written with their remainder (the backoff of
-- AuthFailure, the read limit of Diff/Compress).
--
-- Parameters stand for code outside the repository: the prerelease identifiers of the semver
-- crate with their order (Semver, with the documented laws IsSemver), the printer and parser of
-- versions, BLAKE3, SHA-256, Argon2, the verification of ed25519, the zstd decoder, the network,
-- and the file system of the client.
--
-- Not modelled: file and network I/O, JSON, logging, the HTTP framework, the SQL engine, key
-- files, the publisher's commands, the listings of the databases, and of the client its daemon
-- and its commands. On the server, failures of the disk and of the clock are left out: a read
-- gives the value of a file or nothing.
pub mod Prelude
pub mod Core
pub mod Crypto
pub mod Db
pub mod Diff
pub mod Server
pub mod Client
pub mod Tests
