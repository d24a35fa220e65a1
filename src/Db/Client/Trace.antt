-- ===== src/Db/Client/Trace.antt =====
-- crates/deltaship-db/src/client.rs: the databases that sequences of operations reach. An operation
-- that returns an error leaves the database as it was, so it makes no step.
use deltaship.Prelude.{ℕ, ◌≡◌, subst, Bool, Option, List, []}
use deltaship.Prelude.Text.{Text}
use deltaship.Prelude.Int.{ℤ}
use deltaship.Prelude.Result.{ok}
use deltaship.Core.Version.{Semver, Version}
use deltaship.Db.Models.HistoryStatus.{UpdateHistoryStatus}
use deltaship.Db.Client.{
  ClientDb, NewManagedBinary, UpdateMetrics, register_binary, update_current_version,
  record_installed_version, set_last_check, set_auto_update, delete_managed_binary,
}
use deltaship.Db.Client.History.{
  NewUpdateRecord, record_update_start, set_update_status, record_update_complete, record_rollback,
  delete_update_history,
}
use deltaship.Db.Client.Backups.{
  create_backup, delete_backup, delete_expired_backups, cleanup_old_backups,
}
use deltaship.Db.Client.Invariant.{IsConsistent}
use deltaship.Db.Client.Steps.{
  update_current_version-IsConsistent, record_installed_version-IsConsistent,
}
use deltaship.Db.Client.Registration.{
  register_binary-IsConsistent, set_last_check-IsConsistent, set_auto_update-IsConsistent,
  delete_managed_binary-IsConsistent,
}
use deltaship.Db.Client.Records.{
  record_update_start-IsConsistent, record_rollback-IsConsistent, set_update_status-IsConsistent,
  record_update_complete-IsConsistent, delete_update_history-IsConsistent,
  create_backup-IsConsistent, delete_backup-IsConsistent, delete_expired_backups-IsConsistent,
  cleanup_old_backups-IsConsistent,
}

abbrev pub empty_client_db : ClientDb
empty_client_db = record {
  managed_binaries = [];
  installed_versions = [];
  update_history = [];
  rollback_backups = [];
  last_rowid = 0;
}

empty-IsConsistent : IsConsistent empty_client_db
empty-IsConsistent = record {
  ids = tt;
  names = tt;
  installed = tt;
  agree = tt;
  named = tt;
  rows = tt;
  versions_belong = tt;
  updates_belong = tt;
  backups_belong = tt;
}

module _ {S : Semver} (parse : Text → Option (Version S)) (cutoff : ℤ → Text) where
  -- The operations that change the database.
  pub data Step : ClientDb → ClientDb → Type 0 where
    binary_registered :
        {db db' : ClientDb} (binary : NewManagedBinary)
        → register_binary binary db ≡ ok db'
        → Step db db'
    current_updated :
        {db db' : ClientDb} (now id v string : Text)
        → update_current_version now id v string db ≡ ok db'
        → Step db db'
    version_recorded :
        {db db' : ClientDb} (id v string : Text) (blake3 sha256 : List ℕ) (size : ℤ) (rowid : ℕ)
        → record_installed_version parse id v string blake3 sha256 size db ≡ ok (rowid, db')
        → Step db db'
    checked : {db db' : ClientDb} (now id : Text) → set_last_check now id db ≡ ok db' → Step db db'
    auto_update_set :
        {db db' : ClientDb} (id : Text) (enabled : Bool)
        → set_auto_update id enabled db ≡ ok db'
        → Step db db'
    binary_deleted :
        {db db' : ClientDb} (id : Text) → delete_managed_binary id db ≡ ok db' → Step db db'
    update_started :
        {db db' : ClientDb} (now : Text) (update : NewUpdateRecord) (rowid : ℕ)
        → record_update_start now update db ≡ ok (rowid, db')
        → Step db db'
    status_set :
        {db db' : ClientDb} (update_id : ℕ) (status : UpdateHistoryStatus)
        → set_update_status update_id status db ≡ ok db'
        → Step db db'
    update_completed :
        {db db' : ClientDb} (now : Text) (update_id : ℕ) (success : Bool) (message : Option Text)
        (metrics : UpdateMetrics)
        → record_update_complete now update_id success message metrics db ≡ ok db'
        → Step db db'
    rolled_back :
        {db db' : ClientDb} (now id : Text) (from_id from_string : Option Text)
        (to_id to_string : Text) (rowid : ℕ)
        → record_rollback now id from_id from_string to_id to_string db ≡ ok (rowid, db')
        → Step db db'
    history_deleted :
        {db db' : ClientDb} (days : ℤ) → delete_update_history cutoff days db ≡ ok db' → Step db db'
    backup_created :
        {db db' : ClientDb} (now id v string path : Text) (blake3 : List ℕ) (size : ℤ)
        (expires_at : Option Text) (rowid : ℕ)
        → create_backup parse now id v string path blake3 size expires_at db ≡ ok (rowid, db')
        → Step db db'
    backup_deleted :
        {db db' : ClientDb} (backup_id : ℕ) → delete_backup backup_id db ≡ ok db' → Step db db'
    backups_expired :
        {db db' : ClientDb} (now : Text) → delete_expired_backups now db ≡ db' → Step db db'
    backups_cleaned :
        {db db' : ClientDb} (id : Text) (keep_count : ℤ)
        → cleanup_old_backups id keep_count db ≡ db'
        → Step db db'

  pub data IsReached : ClientDb → Type 0 where
    created : {db : ClientDb} → empty_client_db ≡ db → IsReached db
    continued : {db db' : ClientDb} → IsReached db → Step db db' → IsReached db'

  step-IsConsistent : {db db' : ClientDb} → Step db db' → IsConsistent db → IsConsistent db'
  step-IsConsistent (binary_registered binary h) I = register_binary-IsConsistent I binary h
  step-IsConsistent (current_updated now id v string h) I =
      update_current_version-IsConsistent I now id v string h
  step-IsConsistent (version_recorded id v string blake3 sha256 size rowid h) I =
      record_installed_version-IsConsistent I parse id v string blake3 sha256 size h
  step-IsConsistent (checked now id h) I = set_last_check-IsConsistent I now id h
  step-IsConsistent (auto_update_set id enabled h) I = set_auto_update-IsConsistent I id enabled h
  step-IsConsistent (binary_deleted id h) I = delete_managed_binary-IsConsistent I id h
  step-IsConsistent (update_started now update rowid h) I =
      record_update_start-IsConsistent I now update h
  step-IsConsistent (status_set update_id status h) I =
      set_update_status-IsConsistent I update_id status h
  step-IsConsistent (update_completed now update_id success message metrics h) I =
      record_update_complete-IsConsistent I now update_id success message metrics h
  step-IsConsistent (rolled_back now id from_id from_string to_id to_string rowid h) I =
      record_rollback-IsConsistent I now id from_id from_string to_id to_string h
  step-IsConsistent (history_deleted days h) I = delete_update_history-IsConsistent I cutoff days h
  step-IsConsistent (backup_created now id v string path blake3 size expires_at rowid h) I =
      create_backup-IsConsistent I parse now id v string path blake3 size expires_at h
  step-IsConsistent (backup_deleted backup_id h) I = delete_backup-IsConsistent I backup_id h
  step-IsConsistent (backups_expired now h) I =
      subst IsConsistent h (delete_expired_backups-IsConsistent I now)
  step-IsConsistent (backups_cleaned id keep_count h) I =
      subst IsConsistent h (cleanup_old_backups-IsConsistent I id keep_count)

  -- Whatever operations the client runs from an empty database, in whatever order: no two binaries
  -- share an identifier or a name, no binary has a version installed twice, every installed version,
  -- update and backup has its binary, the hashes of an installed version or a backup have their sizes,
  -- the file size of an installed version is positive, the version that a binary's row names is installed, and the current flag
  -- is set on exactly the installed version that its binary's row names.
  pub reached_client-IsConsistent : {db : ClientDb} → IsReached db → IsConsistent db
  reached_client-IsConsistent (created e) = subst IsConsistent e empty-IsConsistent
  reached_client-IsConsistent (continued before step) =
      step-IsConsistent step (reached_client-IsConsistent before)
