-- ===== src/Db/Client/Backups.antt =====
-- crates/deltaship-db/src/client.rs: the backups of replaced versions.
pub mod Expiry
use deltaship.Prelude.{
  ℕ, suc, Bool, true, false, not, ◌&&◌, ◌||◌, Option, none, some, List, [], ◌∷◌, any, find, retain,
  take, map, ◌==◌, if◌then◌else◌,
}
use deltaship.Prelude.Text.{Text, text_eq}
use deltaship.Prelude.Int.{ℤ, pos, negsuc}
use deltaship.Prelude.Result.{Result, ok, err, ◌>>=◌, ◌>>◌, ensure, ok_or}
use deltaship.Server.Latest.{text_lt}
use deltaship.Core.Version.{Semver, Version}
use deltaship.Db.{DbError, not_found, foreign_key_violation}
use deltaship.Db.Table.{delete_where}
use deltaship.Db.Models.{
  normalize_version_string, validate_hash_size, validate_expires_at_timestamp, blake3_hash_size,
}
use deltaship.Db.Client.{ClientDb, DbRollbackBackup, is_binary}

abbrev pub check_expiry : Option Text → Result DbError (Unit {0})
check_expiry none = ok tt
check_expiry (some expires) = validate_expires_at_timestamp expires

module _ {S : Semver} (parse : Text → Option (Version S)) where
  unfoldable pub create_backup :
      Text
      → Text
      → Text
      → Text
      → Text
      → List ℕ
      → ℤ
      → Option Text
      → ClientDb
      → Result DbError (ℕ × ClientDb)
  unfolding text_eq
  create_backup now binary_id version_id version_string backup_path blake3 size expires_at db = do
    validate_hash_size blake3 blake3_hash_size
    check_expiry expires_at
    normalized_version ← normalize_version_string parse version_string
    let rowid = suc db.last_rowid
    ensure (any (is_binary binary_id) db.managed_binaries) foreign_key_violation
    let row : DbRollbackBackup = record {
      backup_id = rowid;
      binary_id = binary_id;
      version_id = version_id;
      version_string = normalized_version;
      backup_path = backup_path;
      backup_hash_blake3 = blake3;
      backup_size_bytes = size;
      created_at = now;
      expires_at = expires_at;
    }
    ok (rowid, record db { rollback_backups = row ∷ db.rollback_backups; last_rowid = rowid })

unfoldable pub get_backup : ClientDb → ℕ → Option DbRollbackBackup
get_backup db backup_id = find (λ b. b.backup_id == backup_id) db.rollback_backups

-- `ORDER BY created_at DESC`. Of rows made in the same second the newest stands first.
unfoldable pub insert_newest : DbRollbackBackup → List DbRollbackBackup → List DbRollbackBackup
unfolding text_lt
insert_newest b [] = b ∷ []
insert_newest b (c ∷ cs) =
    if text_lt b.created_at c.created_at then c ∷ insert_newest b cs else b ∷ c ∷ cs

unfoldable pub newest_first : List DbRollbackBackup → List DbRollbackBackup
unfolding insert_newest
newest_first [] = []
newest_first (b ∷ bs) = insert_newest b (newest_first bs)

unfoldable pub list_backups : ClientDb → Text → List DbRollbackBackup
unfolding newest_first text_eq
list_backups db binary_id =
    newest_first (retain (λ b. text_eq b.binary_id binary_id) db.rollback_backups)

unfoldable pub delete_backup : ℕ → ClientDb → Result DbError ClientDb
unfolding delete_where
delete_backup backup_id db = do
  ensure (any (λ b. b.backup_id == backup_id) db.rollback_backups) not_found
  ok (record db {
    rollback_backups = delete_where (λ b. b.backup_id == backup_id) db.rollback_backups;
  })

-- `expires_at IS NOT NULL AND expires_at < CURRENT_TIMESTAMP`, a comparison of texts.
unfoldable pub is_expired : Text → DbRollbackBackup → Bool
unfolding text_lt
is_expired now b = elim b.expires_at [ none ↦ false | some t ↦ text_lt t now ]

unfoldable pub delete_expired_backups : Text → ClientDb → ClientDb
unfolding is_expired delete_where
delete_expired_backups now db = record db {
  rollback_backups = delete_where (is_expired now) db.rollback_backups;
}

-- `LIMIT ?`, where a negative number is no limit.
abbrev pub limit : ℤ → List DbRollbackBackup → List DbRollbackBackup
limit (pos n) bs = take n bs
limit (negsuc n) bs = bs

unfoldable pub cleanup_old_backups : Text → ℤ → ClientDb → ClientDb
unfolding list_backups delete_where text_eq
cleanup_old_backups binary_id keep_count db =
    let kept = limit keep_count (list_backups db binary_id) in
    record db {
      rollback_backups =
          delete_where
            (λ b. text_eq b.binary_id binary_id && not (any (λ k. k.backup_id == b.backup_id) kept))
            db.rollback_backups;
    }

unfoldable pub get_backup_by_version : ClientDb → Text → Text → Option DbRollbackBackup
unfolding list_backups text_eq
get_backup_by_version db binary_id version_string =
    find (λ b. text_eq b.version_string version_string) (list_backups db binary_id)
