-- ===== src/Db/Client/History.antt =====
-- crates/deltaship-db/src/client.rs: the history of updates.
use deltaship.Prelude.{ℕ, suc, Bool, true, Option, none, some, ◌∷◌, any, ◌==◌, if◌then◌else◌}
use deltaship.Prelude.Text.{Text, text_eq}
use deltaship.Prelude.Int.{ℤ}
use deltaship.Prelude.Result.{Result, ok, ◌>>=◌, ◌>>◌, ensure, ok_or}
use deltaship.Server.Latest.{text_lt}
use deltaship.Db.{DbError, not_found, invalid_data, foreign_key_violation}
use deltaship.Db.Table.{update_some, delete_where}
use deltaship.Db.Models.HistoryStatus.{
  UpdateHistoryStatus, downloading, completed, failed, rolled_back,
}
use deltaship.Db.Client.{ClientDb, DbUpdateHistory, UpdateMetrics, is_binary, is_positive}

abbrev pub no_metrics : UpdateMetrics
no_metrics = record {
  diff_id = none;
  diff_algorithm = none;
  diff_size_bytes = none;
  full_size_bytes = none;
  actual_downloaded_bytes = none;
  download_time_ms = none;
  apply_time_ms = none;
  verify_time_ms = none;
}

pub record NewUpdateRecord : Type 0 where
  pub binary_id : Text
  pub from_version_id : Option Text
  pub from_version_string : Option Text
  pub to_version_id : Text
  pub to_version_string : Text

-- The `INSERT` of a row with the next number.
unfoldable pub insert_update : DbUpdateHistory → ClientDb → Result DbError (ℕ × ClientDb)
unfolding text_eq
insert_update row db = do
  ensure (any (is_binary row.binary_id) db.managed_binaries) foreign_key_violation
  ok (
    row.update_id,
    record db { update_history = row ∷ db.update_history; last_rowid = row.update_id },
  )

unfoldable pub record_update_start :
    Text → NewUpdateRecord → ClientDb → Result DbError (ℕ × ClientDb)
unfolding insert_update
record_update_start now update db =
    insert_update
      (record {
        update_id = suc db.last_rowid;
        binary_id = update.binary_id;
        from_version_id = update.from_version_id;
        from_version_string = update.from_version_string;
        to_version_id = update.to_version_id;
        to_version_string = update.to_version_string;
        metrics = no_metrics;
        started_at = now;
        completed_at = none;
        status = downloading;
        success = none;
        error_message = none;
      })
      db

-- `UPDATE update_history SET ... WHERE update_id = ?`.
unfoldable pub update_update :
    ℕ → (DbUpdateHistory → DbUpdateHistory) → ClientDb → Result DbError ClientDb
unfolding update_some
update_update update_id set db = do
  update_history ←
      ok_or (update_some (λ r. r.update_id == update_id) set db.update_history) not_found
  ok (record db { update_history = update_history })

unfoldable pub set_update_status : ℕ → UpdateHistoryStatus → ClientDb → Result DbError ClientDb
unfolding update_update
set_update_status update_id status = update_update update_id λ r. record r { status = status }

unfoldable pub record_update_complete :
    Text → ℕ → Bool → Option Text → UpdateMetrics → ClientDb → Result DbError ClientDb
unfolding update_update
record_update_complete now update_id success error_message metrics = update_update update_id λ r.
    record r {
      status = if success then completed else failed;
      success = some success;
      error_message = error_message;
      metrics = metrics;
      completed_at = some now;
    }

unfoldable pub record_rollback :
    Text → Text → Option Text → Option Text → Text → Text → ClientDb → Result DbError (ℕ × ClientDb)
unfolding insert_update
record_rollback now binary_id from_id from_string to_id to_string db =
    insert_update
      (record {
        update_id = suc db.last_rowid;
        binary_id = binary_id;
        from_version_id = from_id;
        from_version_string = from_string;
        to_version_id = to_id;
        to_version_string = to_string;
        metrics = no_metrics;
        started_at = now;
        completed_at = some now;
        status = rolled_back;
        success = some true;
        error_message = none;
      })
      db

-- The cutoff is what SQLite computes for `datetime('now', '-<days> days')`.
unfoldable pub delete_update_history : (ℤ → Text) → ℤ → ClientDb → Result DbError ClientDb
unfolding delete_where text_lt
delete_update_history cutoff days db = do
  ensure (is_positive days) invalid_data
  ok (record db {
    update_history = delete_where (λ r. text_lt r.started_at (cutoff days)) db.update_history;
  })
