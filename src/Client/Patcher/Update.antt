-- ===== src/Client/Patcher/Update.antt =====
-- crates/deltaship-client/src/patcher.rs: apply_update, which keeps a backup, restores it when the
-- update fails, and records what was done.
use deltaship.Prelude.{ℕ, Bool, true, false, Option, none, some, ◌∷◌, ◌++◌, if◌then◌else◌, length}
use deltaship.Prelude.Text.{Text, ascii}
use deltaship.Prelude.Int.{pos}
use deltaship.Prelude.Result
use deltaship.Prelude.Result.{Result, ok, err}
use deltaship.Crypto.Hashing.{from_hex}
use deltaship.Client.InstallPath.{validate_install_path}
use deltaship.Db.Client.{
  DbManagedBinary, UpdateMetrics, update_current_version, record_installed_version,
}
use deltaship.Db.Client.History.{
  NewUpdateRecord, no_metrics, record_update_start, record_update_complete,
}
use deltaship.Db.Client.Backups.{create_backup}
use deltaship.Client.Patcher.{
  Env, World, M, UpdateInfo, UpdateError, invalid_path, invalid_hash, restore_failed, ◌>>=◌, ◌>>◌,
  return, fail, lift, require, query, execute, exists, read, copy, join, sig_path_for,
  check_disk_space, check_disk_space_at_path,
}
use deltaship.Client.Patcher.Execute.{execute_update}

abbrev pub unwrap_or : Option Text → Text → Text
unwrap_or none other = other
unwrap_or (some t) other = t

-- The row that an update starts with.
abbrev pub update_record : DbManagedBinary → UpdateInfo → NewUpdateRecord
update_record binary update = record {
  binary_id = binary.binary_id;
  from_version_id = binary.current_version_id;
  from_version_string = binary.current_version_string;
  to_version_id = update.version_id;
  to_version_string = update.version;
}

module _ (env : Env) where
  abbrev pub check_diff_space : UpdateInfo → M (Unit {0})
  check_diff_space update = elim update.diff_size [
    | none ↦ return tt
    | some diff_size ↦ check_disk_space_at_path env env.downloads_dir diff_size
  ]

  -- An update of unknown size is taken to be as large as what is installed.
  abbrev pub check_installed_space : DbManagedBinary → UpdateInfo → M (Unit {0})
  check_installed_space binary update = do
    current ← read binary.install_path
    check_disk_space env binary.install_path env.backups_dir (length current)
    check_diff_space update

  unfoldable pub check_space : DbManagedBinary → UpdateInfo → M (Unit {0})
  check_space binary update = elim update.full_binary_size [
    | some binary_size ↦ do
      check_disk_space env binary.install_path env.backups_dir binary_size
      check_diff_space update
    | none ↦ do
      installed ← exists binary.install_path
      if installed then check_installed_space binary update else return tt
  ]

  abbrev pub backup_path : DbManagedBinary → Text
  backup_path binary = join env.backups_dir (
      binary.binary_name
      ++ (b'_' ∷ (unwrap_or binary.current_version_string (ascii "unknown") ++ ascii ".backup")))

  unfoldable pub copy_signature : DbManagedBinary → M (Unit {0})
  copy_signature binary = do
    signed ← exists (sig_path_for binary.install_path)
    if signed
        then copy env (sig_path_for binary.install_path) (sig_path_for (backup_path binary))
        else return tt

  unfoldable pub copy_installed : DbManagedBinary → M (Option Text)
  copy_installed binary = do
    copy env binary.install_path (backup_path binary)
    copy_signature binary
    return (some (backup_path binary))

  -- The copy of the installed file, with its signature if it has one.
  unfoldable pub make_backup : DbManagedBinary → M (Option Text)
  make_backup binary = do
    installed ← exists binary.install_path
    if installed then copy_installed binary else return none

  unfoldable pub insert_backup : DbManagedBinary → Text → Text → Text → M (Unit {0})
  insert_backup binary path version_id version_string = do
    content ← read path
    _ ← query (
        create_backup env.parse env.now binary.binary_id version_id version_string path
          (env.blake3 content) (pos (length content)) none)
    return tt

  -- The row of the backup, where there is one and the previous version is known.
  unfoldable pub record_backup :
      DbManagedBinary → Option Text → Option Text → Option Text → M (Unit {0})
  record_backup binary (some path) (some version_id) (some version_string) = do
    there ← exists path
    if there then insert_backup binary path version_id version_string else return tt
  record_backup binary path version_id version_string = return tt

  -- What follows a successful update. The checksum is read again, by the `blake3` crate, which
  -- refuses the signs that `Hash::from_hex` lets pass; without such a sign both read the same.
  unfoldable pub record_success :
      DbManagedBinary → UpdateInfo → ℕ → Option Text → UpdateMetrics → M (Unit {0})
  record_success binary update update_id backup metrics = do
    execute (record_update_complete env.now update_id true none metrics)
    installed ← read binary.install_path
    blake3 ← lift (Result.map_err (λ _. invalid_hash) (from_hex update.checksum))
    _ ← query (
        record_installed_version env.parse binary.binary_id update.version_id update.version blake3
          (env.sha256 installed) (pos (length installed)))
    execute (update_current_version env.now binary.binary_id update.version_id update.version)
    record_backup binary backup binary.current_version_id binary.current_version_string

  -- The result of the copy back, as a value: an error is kept until the failure is recorded.
  unfoldable pub restore : DbManagedBinary → Option Text → M Bool
  restore binary none w = (ok true, w)
  restore binary (some path) w = elim (exists path w).0 [
    | ok true ↦
        let r = copy env path binary.install_path w in
        (ok (elim r.0 [ ok _ ↦ true | err _ ↦ false ]), r.1)
    | _ ↦ (ok true, w)
  ]

  -- What follows a failed one, whose error is passed on. `message` prints an error.
  unfoldable pub recover :
      (UpdateError → Text) → DbManagedBinary → ℕ → Option Text → UpdateError → M (Unit {0})
  recover message binary update_id backup error = do
    restored ← restore binary backup
    execute (record_update_complete env.now update_id false (some (message error)) no_metrics)
    require restored restore_failed
    fail error

  unfoldable pub conclude :
      (UpdateError → Text)
      → DbManagedBinary
      → UpdateInfo
      → ℕ
      → Option Text
      → Result UpdateError UpdateMetrics × World
      → Result UpdateError (Unit {0}) × World
  conclude message binary update update_id backup (ok metrics, w) =
      record_success binary update update_id backup metrics w
  conclude message binary update update_id backup (err e, w) =
      recover message binary update_id backup e w

  unfoldable pub apply_update : (UpdateError → Text) → DbManagedBinary → UpdateInfo → M (Unit {0})
  apply_update message binary update = do
    lift (Result.map_err (λ _. invalid_path) (validate_install_path env.host binary.install_path))
    check_space binary update
    update_id ← query (record_update_start env.now (update_record binary update))
    backup ← make_backup binary
    (λ w. conclude message binary update update_id backup (execute_update env binary update w))
