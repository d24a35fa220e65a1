-- ===== src/Db/Client/Records.antt =====
-- crates/deltaship-db/src/client.rs: the operations on the history and on the backups keep the
-- client's database consistent.
use deltaship.Db.Publisher.Preserves.{validate_hash_size-ok}
use deltaship.Prelude.{
  ℕ, suc, ◌≡◌, refl, sym, subst, ap, ◌∙◌, Bool, Option, List, ◌∷◌, any, All, ◌==◌,
}
use deltaship.Prelude.Text.{Text}
use deltaship.Prelude.Int.{ℤ}
use deltaship.Prelude.Result.{ok, ensure, ok_or, >>=-eq-ok, ensure-eq-ok, ok_or-eq-ok, ok_injective}
use deltaship.Core.Version.{Semver, Version}
use deltaship.Db.{not_found, invalid_data, foreign_key_violation}
use deltaship.Db.Table.{
  update_some, delete_where, All-update_where, update_some-eq-some, All-delete_where,
}
use deltaship.Db.Models.{normalize_version_string, validate_hash_size}
use deltaship.Db.Models.HistoryStatus.{UpdateHistoryStatus}
use deltaship.Db.Client.{
  ClientDb, DbUpdateHistory, DbRollbackBackup, UpdateMetrics, is_binary, is_positive,
}
use deltaship.Db.Client.History.{
  NewUpdateRecord, insert_update, record_update_start, update_update, set_update_status,
  record_update_complete, record_rollback, delete_update_history,
}
use deltaship.Db.Client.Backups.{
  check_expiry, create_backup, delete_backup, delete_expired_backups, is_expired,
  cleanup_old_backups,
}
use deltaship.Db.Client.Invariant.{IsKnown, IsConsistent, IsBackupRow}

module _ {db : ClientDb} (I : IsConsistent db) where
  with_history :
      (rows : List DbUpdateHistory) (n : ℕ)
      → All (λ r. IsKnown db.managed_binaries r.binary_id) rows
      → IsConsistent (record db { update_history = rows; last_rowid = n })
  with_history rows n h = record {
    ids = I.ids;
    names = I.names;
    installed = I.installed;
    agree = I.agree;
    named = I.named;
    rows = I.rows;
    versions_belong = I.versions_belong;
    updates_belong = h;
    backups_belong = I.backups_belong;
  }

  with_backups :
      (rows : List DbRollbackBackup) (n : ℕ)
      → All (IsBackupRow db.managed_binaries) rows
      → IsConsistent (record db { rollback_backups = rows; last_rowid = n })
  with_backups rows n h = record {
    ids = I.ids;
    names = I.names;
    installed = I.installed;
    agree = I.agree;
    named = I.named;
    rows = I.rows;
    versions_belong = I.versions_belong;
    updates_belong = I.updates_belong;
    backups_belong = h;
  }

  insert_update-IsConsistent :
      (row : DbUpdateHistory) {r : ℕ × ClientDb} → insert_update row db ≡ ok r → IsConsistent r.1
  unfolding insert_update
  insert_update-IsConsistent row h =
      let known = any (is_binary row.binary_id) db.managed_binaries in
      let (_, k, e) = >>=-eq-ok (ensure known foreign_key_violation) _ h in
      subst (λ (r : ℕ × ClientDb). IsConsistent r.1) (ok_injective e)
        (with_history (row ∷ db.update_history) row.update_id
          (ensure-eq-ok known _ k, I.updates_belong))

  pub record_update_start-IsConsistent :
      (now : Text) (update : NewUpdateRecord) {r : ℕ × ClientDb}
      → record_update_start now update db ≡ ok r
      → IsConsistent r.1
  unfolding record_update_start
  record_update_start-IsConsistent now update = insert_update-IsConsistent _

  pub record_rollback-IsConsistent :
      (now id : Text) (from_id from_string : Option Text) (to_id to_string : Text)
      {r : ℕ × ClientDb}
      → record_rollback now id from_id from_string to_id to_string db ≡ ok r
      → IsConsistent r.1
  unfolding record_rollback
  record_rollback-IsConsistent now id from_id from_string to_id to_string =
      insert_update-IsConsistent _

  update_update-IsConsistent :
      (update_id : ℕ) (set : DbUpdateHistory → DbUpdateHistory)
      → ((r : DbUpdateHistory) → (set r).binary_id ≡ r.binary_id)
      → {db' : ClientDb} → update_update update_id set db ≡ ok db'
      → IsConsistent db'
  unfolding update_update
  update_update-IsConsistent update_id set same h =
      let p = λ (r : DbUpdateHistory). r.update_id == update_id in
      let bs = db.managed_binaries in
      let (_, found, e) = >>=-eq-ok (ok_or (update_some p set db.update_history) not_found) _ h in
      let here = update_some-eq-some p set db.update_history (ok_or-eq-ok _ _ found) in
      subst IsConsistent (ap (λ us. record db { update_history = us }) here ∙ ok_injective e) (
        with_history _ db.last_rowid (
          All-update_where p set (λ r. IsKnown bs r.binary_id)
            (λ r _ k. subst (IsKnown bs) (sym (same r)) k) db.update_history I.updates_belong))

  pub set_update_status-IsConsistent :
      (update_id : ℕ) (status : UpdateHistoryStatus) {db' : ClientDb}
      → set_update_status update_id status db ≡ ok db'
      → IsConsistent db'
  unfolding set_update_status
  set_update_status-IsConsistent update_id status =
      update_update-IsConsistent update_id _ (λ r. refl)

  pub record_update_complete-IsConsistent :
      (now : Text) (update_id : ℕ) (success : Bool) (message : Option Text)
      (metrics : UpdateMetrics) {db' : ClientDb}
      → record_update_complete now update_id success message metrics db ≡ ok db'
      → IsConsistent db'
  unfolding record_update_complete
  record_update_complete-IsConsistent now update_id success message metrics =
      update_update-IsConsistent update_id _ (λ r. refl)

  pub delete_update_history-IsConsistent :
      (cutoff : ℤ → Text) (days : ℤ) {db' : ClientDb}
      → delete_update_history cutoff days db ≡ ok db'
      → IsConsistent db'
  unfolding delete_update_history
  delete_update_history-IsConsistent cutoff days h =
      let (_, _, e) = >>=-eq-ok (ensure (is_positive days) invalid_data) _ h in
      subst IsConsistent (ok_injective e) (
        with_history _ db.last_rowid
          (All-delete_where _ _ _ (λ r _ k. k) db.update_history I.updates_belong))

  pub create_backup-IsConsistent :
      {S : Semver} (parse : Text → Option (Version S)) (now id v string path : Text)
      (blake3 : List ℕ) (size : ℤ) (expires_at : Option Text) {r : ℕ × ClientDb}
      → create_backup parse now id v string path blake3 size expires_at db ≡ ok r
      → IsConsistent r.1
  unfolding create_backup
  create_backup-IsConsistent parse now id v string path blake3 size expires_at h =
      let known = any (is_binary id) db.managed_binaries in
      let (_, sized, h1) = >>=-eq-ok (validate_hash_size blake3 _) _ h in
      let (_, _, h2) = >>=-eq-ok (check_expiry expires_at) _ h1 in
      let (_, _, h3) = >>=-eq-ok (normalize_version_string parse string) _ h2 in
      let (_, k, e) = >>=-eq-ok (ensure known foreign_key_violation) _ h3 in
      subst (λ (r : ℕ × ClientDb). IsConsistent r.1) (ok_injective e)
        (with_backups _ (suc db.last_rowid)
          ((ensure-eq-ok known _ k, validate_hash_size-ok blake3 _ sized), I.backups_belong))

  fewer_backups :
      (p : DbRollbackBackup → Bool)
      → IsConsistent (record db { rollback_backups = delete_where p db.rollback_backups })
  fewer_backups p =
      with_backups _ db.last_rowid
        (All-delete_where _ _ p (λ r _ k. k) db.rollback_backups I.backups_belong)

  pub delete_backup-IsConsistent :
      (backup_id : ℕ) {db' : ClientDb} → delete_backup backup_id db ≡ ok db' → IsConsistent db'
  unfolding delete_backup
  delete_backup-IsConsistent backup_id h =
      let there = any (λ b. b.backup_id == backup_id) db.rollback_backups in
      let (_, _, e) = >>=-eq-ok (ensure there not_found) _ h in
      subst IsConsistent (ok_injective e) (fewer_backups (λ b. b.backup_id == backup_id))

  pub delete_expired_backups-IsConsistent :
      (now : Text) → IsConsistent (delete_expired_backups now db)
  unfolding delete_expired_backups
  delete_expired_backups-IsConsistent now = fewer_backups (is_expired now)

  pub cleanup_old_backups-IsConsistent :
      (id : Text) (keep_count : ℤ) → IsConsistent (cleanup_old_backups id keep_count db)
  unfolding cleanup_old_backups
  cleanup_old_backups-IsConsistent id keep_count = fewer_backups _
