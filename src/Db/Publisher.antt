-- ===== src/Db/Publisher.antt =====
-- crates/deltaship-db/src/publisher.rs with the tables of schema.rs: binaries and versions. A table
-- is the list of its rows, the newest first. An identifier `id` is the fresh UUID of the call, and
-- `now` is CURRENT_TIMESTAMP in seconds. The columns created_at and updated_at, which only order
-- listings, are left out.
pub mod Jobs
pub mod Invariant
pub mod Preserves
pub mod JobSteps
pub mod Deletions
pub mod Trace
pub mod Again
use deltaship.Prelude.{
  ℕ, Bool, true, false, not, ◌&&◌, ◌||◌, Option, none, some, List, [], ◌∷◌, any, find, ◌==◌,
  if◌then◌else◌,
}
use deltaship.Prelude.Text.{Text, text_eq}
use deltaship.Prelude.Int.{ℤ}
use deltaship.Prelude.Result.{Result, ok, err, ◌>>=◌, ◌>>◌, ensure, ok_or}
use deltaship.Core.Version.{Semver, Version}
use deltaship.Db.{DbError, not_found, invalid_data, unique_violation, foreign_key_violation}
use deltaship.Db.Table.{update_some}
use deltaship.Db.Models.{
  validate_platform, normalize_version_string, validate_hash_size, blake3_hash_size,
  sha256_hash_size,
}
use deltaship.Db.Models.JobStatus.{DiffJobStatus}

pub record DbBinary : Type 0 where
  pub binary_id : Text
  pub binary_name : Text
  pub platform : Text
  pub binary_path : Text
  pub description : Option Text

pub record DbVersion : Type 0 where
  pub version_id : Text
  pub binary_id : Text
  pub version_string : Text
  pub file_path : Text
  pub file_size_bytes : ℤ
  pub file_hash_blake3 : List ℕ
  pub file_hash_sha256 : List ℕ
  pub signature_ed25519 : Option (List ℕ)
  pub signature_timestamp : Option Text
  pub registered_at : Option ℕ
  pub published_at : Option ℕ
  pub is_published : Bool

-- The status column holds the text of the status.
pub record DbDiffJob : Type 0 where
  pub job_id : Text
  pub from_version_id : Text
  pub to_version_id : Text
  pub diff_algorithm : Text
  pub status : DiffJobStatus
  pub diff_path : Option Text
  pub diff_size_bytes : Option ℤ
  pub diff_hash_blake3 : Option (List ℕ)
  pub computation_time_ms : Option ℤ
  pub error_message : Option Text
  pub started_at : Option ℕ
  pub completed_at : Option ℕ

pub record PublisherDb : Type 0 where
  pub binaries : List DbBinary
  pub versions : List DbVersion
  pub diff_jobs : List DbDiffJob

pub record NewBinary : Type 0 where
  pub binary_name : Text
  pub platform : Text
  pub binary_path : Text
  pub description : Option Text

pub record NewVersion : Type 0 where
  pub binary_id : Text
  pub version_string : Text
  pub file_path : Text
  pub file_size_bytes : ℤ
  pub file_hash_blake3 : List ℕ
  pub file_hash_sha256 : List ℕ

-- A row with the canonical path.
abbrev pub new_binary : Text → NewBinary → Text → DbBinary
new_binary id binary path = record {
  binary_id = id;
  binary_name = binary.binary_name;
  platform = binary.platform;
  binary_path = path;
  description = binary.description;
}

-- A row with the defaults of the schema and the normalised version string.
abbrev pub new_version : Text → NewVersion → Text → DbVersion
new_version id version normalized_version = record {
  version_id = id;
  binary_id = version.binary_id;
  version_string = normalized_version;
  file_path = version.file_path;
  file_size_bytes = version.file_size_bytes;
  file_hash_blake3 = version.file_hash_blake3;
  file_hash_sha256 = version.file_hash_sha256;
  signature_ed25519 = none;
  signature_timestamp = none;
  registered_at = none;
  published_at = none;
  is_published = false;
}

-- The keys that the schema makes unique.
abbrev pub has_binary_id : Text → DbBinary → Bool
has_binary_id id b = text_eq b.binary_id id

abbrev pub same_binary_id : DbBinary → DbBinary → Bool
same_binary_id a b = text_eq b.binary_id a.binary_id

abbrev pub same_binary_name : DbBinary → DbBinary → Bool
same_binary_name a b = text_eq b.binary_name a.binary_name && text_eq b.platform a.platform

abbrev pub has_version_id : Text → DbVersion → Bool
has_version_id id v = text_eq v.version_id id

abbrev pub same_version_id : DbVersion → DbVersion → Bool
same_version_id a b = text_eq b.version_id a.version_id

abbrev pub same_version_string : DbVersion → DbVersion → Bool
same_version_string a b =
    text_eq b.binary_id a.binary_id && text_eq b.version_string a.version_string

unfoldable pub get_binary : PublisherDb → Text → Option DbBinary
get_binary db binary_id = find (has_binary_id binary_id) db.binaries

unfoldable pub get_version : PublisherDb → Text → Option DbVersion
get_version db version_id = find (has_version_id version_id) db.versions

-- What the file system says of a path: its canonical form if it exists and can be resolved, and
-- whether that is a file that can be opened.
module _ (canonicalize : Text → Option Text) (is_readable_file : Text → Bool) where
  unfoldable pub insert_binary : Text → NewBinary → PublisherDb → Result DbError PublisherDb
  unfolding text_eq
  insert_binary id binary db = do
    validate_platform binary.platform
    path ← ok_or (canonicalize binary.binary_path) invalid_data
    ensure (is_readable_file path) invalid_data
    let row = new_binary id binary path
    ensure (not (any (same_binary_id row) db.binaries)) unique_violation
    ensure (not (any (same_binary_name row) db.binaries)) unique_violation
    ok (record db { binaries = row ∷ db.binaries })

module _ {S : Semver} (parse : Text → Option (Version S)) where
  unfoldable pub insert_version : Text → NewVersion → PublisherDb → Result DbError PublisherDb
  unfolding text_eq get_binary
  insert_version id version db = do
    validate_hash_size version.file_hash_blake3 blake3_hash_size
    validate_hash_size version.file_hash_sha256 sha256_hash_size
    normalized_version ← normalize_version_string parse version.version_string
    let row = new_version id version normalized_version
    ensure (not (any (same_version_id row) db.versions)) unique_violation
    ensure (not (any (same_version_string row) db.versions)) unique_violation
    ensure (any (has_binary_id version.binary_id) db.binaries) foreign_key_violation
    ok (record db { versions = row ∷ db.versions })

-- `UPDATE versions SET ... WHERE version_id = ?`, and the error where no row has the identifier.
unfoldable pub update_version :
    Text → (DbVersion → DbVersion) → PublisherDb → Result DbError PublisherDb
unfolding update_some
update_version version_id set db = do
  versions ← ok_or (update_some (has_version_id version_id) set db.versions) not_found
  ok (record db { versions = versions })

unfoldable pub set_version_signature :
    Text → List ℕ → Text → PublisherDb → Result DbError PublisherDb
unfolding update_version
set_version_signature version_id signature timestamp =
    update_version version_id
      λ v. record v { signature_ed25519 = some signature; signature_timestamp = some timestamp }

unfoldable pub set_version_published : Text → ℕ → PublisherDb → Result DbError PublisherDb
unfolding update_version
set_version_published version_id now =
    update_version version_id λ v. record v { is_published = true; published_at = some now }

unfoldable pub set_version_unpublished : Text → PublisherDb → Result DbError PublisherDb
unfolding update_version
set_version_unpublished version_id =
    update_version version_id λ v. record v { is_published = false; published_at = none }

unfoldable pub update_version_hashes :
    Text → List ℕ → List ℕ → ℤ → PublisherDb → Result DbError PublisherDb
unfolding update_version
update_version_hashes version_id blake3_hash sha256_hash file_size_bytes db = do
  validate_hash_size blake3_hash blake3_hash_size
  validate_hash_size sha256_hash sha256_hash_size
  update_version version_id
      (λ v. record v {
        file_hash_blake3 = blake3_hash;
        file_hash_sha256 = sha256_hash;
        file_size_bytes = file_size_bytes;
      })
      db
