-- ===== src/Db/Client.antt =====
-- crates/deltaship-db/src/client.rs with the tables of schema.rs: the managed binaries and the
-- versions installed for them. A table is the list of its rows, the newest first, and `now` is
-- CURRENT_TIMESTAMP. The columns created_at and updated_at of a managed binary are left out.
pub mod Backups
pub mod History
pub mod Invariant
pub mod Current
pub mod Steps
pub mod Registration
pub mod Records
pub mod Trace
pub mod Installed
use deltaship.Prelude.{
  ℕ, suc, ◌≤◌, Bool, true, false, not, ◌&&◌, Option, none, some, List, [], ◌∷◌, any, find, leb,
  ◌==◌, if◌then◌else◌,
}
use deltaship.Prelude.Text.{Text, text_eq}
use deltaship.Prelude.Int.{ℤ, pos, negsuc}
use deltaship.Prelude.Result.{Result, ok, err, ◌>>=◌, ◌>>◌, ensure, ok_or}
use deltaship.Core.Version.{Semver, Version}
use deltaship.Db.{DbError, not_found, invalid_data, unique_violation, foreign_key_violation}
use deltaship.Db.Table.{update_where, update_some, delete_where}
use deltaship.Db.Models.{
  validate_platform, normalize_version_string, validate_hash_size, blake3_hash_size,
  sha256_hash_size,
}
use deltaship.Db.Models.HistoryStatus.{UpdateHistoryStatus}

pub record DbManagedBinary : Type 0 where
  pub binary_id : Text
  pub binary_name : Text
  pub platform : Text
  pub install_path : Text
  pub current_version_id : Option Text
  pub current_version_string : Option Text
  pub publisher_public_key : List ℕ
  pub auto_update : Bool
  pub last_check_at : Option Text
  pub last_update_at : Option Text

pub record DbInstalledVersion : Type 0 where
  pub id : ℕ
  pub binary_id : Text
  pub version_id : Text
  pub version_string : Text
  pub file_hash_blake3 : List ℕ
  pub file_hash_sha256 : List ℕ
  pub file_size_bytes : ℤ
  pub is_current : Bool

pub record UpdateMetrics : Type 0 where
  pub diff_id : Option Text
  pub diff_algorithm : Option Text
  pub diff_size_bytes : Option ℤ
  pub full_size_bytes : Option ℤ
  pub actual_downloaded_bytes : Option ℤ
  pub download_time_ms : Option ℤ
  pub apply_time_ms : Option ℤ
  pub verify_time_ms : Option ℤ

-- The columns of the metrics are one field.
pub record DbUpdateHistory : Type 0 where
  pub update_id : ℕ
  pub binary_id : Text
  pub from_version_id : Option Text
  pub from_version_string : Option Text
  pub to_version_id : Text
  pub to_version_string : Text
  pub metrics : UpdateMetrics
  pub started_at : Text
  pub completed_at : Option Text
  pub status : UpdateHistoryStatus
  pub success : Option Bool
  pub error_message : Option Text

pub record DbRollbackBackup : Type 0 where
  pub backup_id : ℕ
  pub binary_id : Text
  pub version_id : Text
  pub version_string : Text
  pub backup_path : Text
  pub backup_hash_blake3 : List ℕ
  pub backup_size_bytes : ℤ
  pub created_at : Text
  pub expires_at : Option Text

-- `last_rowid` is the last number that the AUTOINCREMENT keys of the three tables gave. SQLite
-- counts for each table by itself; the numbers serve only as names.
pub record ClientDb : Type 0 where
  pub managed_binaries : List DbManagedBinary
  pub installed_versions : List DbInstalledVersion
  pub update_history : List DbUpdateHistory
  pub rollback_backups : List DbRollbackBackup
  pub last_rowid : ℕ

pub record NewManagedBinary : Type 0 where
  pub binary_id : Text
  pub binary_name : Text
  pub platform : Text
  pub install_path : Text
  pub publisher_public_key : List ℕ

abbrev pub is_binary : Text → DbManagedBinary → Bool
is_binary id b = text_eq b.binary_id id

abbrev pub same_id : DbManagedBinary → DbManagedBinary → Bool
same_id a b = text_eq b.binary_id a.binary_id

abbrev pub same_name : DbManagedBinary → DbManagedBinary → Bool
same_name a b = text_eq b.binary_name a.binary_name

abbrev pub is_installed : Text → Text → DbInstalledVersion → Bool
is_installed binary_id version_id r =
    text_eq r.binary_id binary_id && text_eq r.version_id version_id

abbrev pub same_installed : DbInstalledVersion → DbInstalledVersion → Bool
same_installed a b = is_installed a.binary_id a.version_id b

unfoldable pub get_binary : ClientDb → Text → Option DbManagedBinary
get_binary db binary_id = find (is_binary binary_id) db.managed_binaries

unfoldable pub get_binary_by_name : ClientDb → Text → Option DbManagedBinary
get_binary_by_name db binary_name =
    find (λ b. text_eq b.binary_name binary_name) db.managed_binaries

-- A row with the defaults of the schema.
abbrev pub registered : NewManagedBinary → DbManagedBinary
registered binary = record {
  binary_id = binary.binary_id;
  binary_name = binary.binary_name;
  platform = binary.platform;
  install_path = binary.install_path;
  current_version_id = none;
  current_version_string = none;
  publisher_public_key = binary.publisher_public_key;
  auto_update = true;
  last_check_at = none;
  last_update_at = none;
}

unfoldable pub register_binary : NewManagedBinary → ClientDb → Result DbError ClientDb
unfolding text_eq
register_binary binary db = do
  validate_platform binary.platform
  ensure (not (any (same_id (registered binary)) db.managed_binaries)) unique_violation
  ensure (not (any (same_name (registered binary)) db.managed_binaries)) unique_violation
  ok (record db { managed_binaries = registered binary ∷ db.managed_binaries })

-- The transaction: an error leaves the database as it was, as the rollback does.
unfoldable pub update_current_version :
    Text → Text → Text → Text → ClientDb → Result DbError ClientDb
unfolding text_eq update_where update_some
update_current_version now binary_id version_id version_string db = do
  let cleared =
      update_where (λ r. text_eq r.binary_id binary_id) (λ r. record r { is_current = false })
        db.installed_versions
  managed_binaries ←
      ok_or
        (update_some (is_binary binary_id)
          (λ b. record b {
            current_version_id = some version_id;
            current_version_string = some version_string;
            last_update_at = some now;
          })
          db.managed_binaries)
        not_found
  installed_versions ←
      ok_or
        (update_some (is_installed binary_id version_id) (λ r. record r { is_current = true })
          cleared)
        not_found
  ok (record db { managed_binaries = managed_binaries; installed_versions = installed_versions })

abbrev pub is_positive : ℤ → Bool
is_positive (pos n) = not (n == 0)
is_positive (negsuc n) = false

module _ {S : Semver} (parse : Text → Option (Version S)) where
  unfoldable pub record_installed_version :
      Text → Text → Text → List ℕ → List ℕ → ℤ → ClientDb → Result DbError (ℕ × ClientDb)
  unfolding text_eq
  record_installed_version binary_id version_id version_string blake3 sha256 size db = do
    validate_hash_size blake3 blake3_hash_size
    validate_hash_size sha256 sha256_hash_size
    normalized_version ← normalize_version_string parse version_string
    ensure (is_positive size) invalid_data
    let rowid = suc db.last_rowid
    ensure (not (any (is_installed binary_id version_id) db.installed_versions)) unique_violation
    ensure (any (is_binary binary_id) db.managed_binaries) foreign_key_violation
    let row : DbInstalledVersion = record {
      id = rowid;
      binary_id = binary_id;
      version_id = version_id;
      version_string = normalized_version;
      file_hash_blake3 = blake3;
      file_hash_sha256 = sha256;
      file_size_bytes = size;
      is_current = false;
    }
    ok (rowid, record db { installed_versions = row ∷ db.installed_versions; last_rowid = rowid })

-- `UPDATE managed_binaries SET ... WHERE binary_id = ?`, and the error where there is no such row.
unfoldable pub update_binary :
    Text → (DbManagedBinary → DbManagedBinary) → ClientDb → Result DbError ClientDb
unfolding update_some
update_binary binary_id set db = do
  managed_binaries ← ok_or (update_some (is_binary binary_id) set db.managed_binaries) not_found
  ok (record db { managed_binaries = managed_binaries })

unfoldable pub set_last_check : Text → Text → ClientDb → Result DbError ClientDb
unfolding update_binary
set_last_check now binary_id = update_binary binary_id λ b. record b { last_check_at = some now }

unfoldable pub set_auto_update : Text → Bool → ClientDb → Result DbError ClientDb
unfolding update_binary
set_auto_update binary_id enabled = update_binary binary_id λ b. record b { auto_update = enabled }

-- The foreign keys of the other tables delete their rows along.
unfoldable pub delete_managed_binary : Text → ClientDb → Result DbError ClientDb
unfolding delete_where text_eq
delete_managed_binary binary_id db = do
  ensure (any (is_binary binary_id) db.managed_binaries) not_found
  ok (record db {
    managed_binaries = delete_where (is_binary binary_id) db.managed_binaries;
    installed_versions = delete_where (λ r. text_eq r.binary_id binary_id) db.installed_versions;
    update_history = delete_where (λ r. text_eq r.binary_id binary_id) db.update_history;
    rollback_backups = delete_where (λ r. text_eq r.binary_id binary_id) db.rollback_backups;
  })
