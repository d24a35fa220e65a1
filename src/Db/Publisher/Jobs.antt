-- ===== src/Db/Publisher/Jobs.antt =====
-- crates/deltaship-db/src/publisher.rs: the jobs that compute diffs, and the deletions.
use deltaship.Prelude.{
  ℕ, ◌+◌, ◌*◌, Bool, true, false, not, ◌&&◌, ◌||◌, Option, none, some, List, [], ◌∷◌, any, find,
  retain, ltb,
}
use deltaship.Prelude.Text.{Text, ascii, text_eq}
use deltaship.Prelude.Int.{ℤ}
use deltaship.Prelude.Result.{Result, ok, err, ◌>>=◌, ◌>>◌, ensure, ok_or}
use deltaship.Db.{DbError, not_found, invalid_data, unique_violation}
use deltaship.Db.Table.{update_where, update_some, delete_where}
use deltaship.Db.Models.{validate_diff_algorithm, validate_hash_size, blake3_hash_size}
use deltaship.Db.Models.JobStatus.{DiffJobStatus, pending, running, completed, failed}
use deltaship.Db.Publisher.{PublisherDb, DbDiffJob, get_version, has_version_id}

pub record NewDiffJob : Type 0 where
  pub from_version_id : Text
  pub to_version_id : Text
  pub diff_algorithm : Text

abbrev pub has_job_id : Text → DbDiffJob → Bool
has_job_id id j = text_eq j.job_id id

abbrev pub same_job_id : DbDiffJob → DbDiffJob → Bool
same_job_id a b = text_eq b.job_id a.job_id

abbrev pub same_job_key : DbDiffJob → DbDiffJob → Bool
same_job_key a b =
    text_eq b.from_version_id a.from_version_id
    && text_eq b.to_version_id a.to_version_id
    && text_eq b.diff_algorithm a.diff_algorithm

unfoldable pub get_diff_job : PublisherDb → Text → Option DbDiffJob
get_diff_job db job_id = find (has_job_id job_id) db.diff_jobs

-- The checks that both insertions make. The foreign keys hold by them.
unfoldable pub check_new_job : NewDiffJob → PublisherDb → Result DbError (Unit {0})
unfolding text_eq
check_new_job job db = do
  from_version ← ok_or (get_version db job.from_version_id) not_found
  to_version ← ok_or (get_version db job.to_version_id) not_found
  ensure (text_eq from_version.binary_id to_version.binary_id) invalid_data
  validate_diff_algorithm job.diff_algorithm

-- A row with the defaults of the schema.
abbrev pub new_job : Text → NewDiffJob → DbDiffJob
new_job id job = record {
  job_id = id;
  from_version_id = job.from_version_id;
  to_version_id = job.to_version_id;
  diff_algorithm = job.diff_algorithm;
  status = pending;
  diff_path = none;
  diff_size_bytes = none;
  diff_hash_blake3 = none;
  computation_time_ms = none;
  error_message = none;
  started_at = none;
  completed_at = none;
}

-- The `INSERT` of both, with the two unique constraints of the table.
unfoldable pub insert_job : DbDiffJob → PublisherDb → Result DbError PublisherDb
insert_job row db = do
  ensure (not (any (same_job_id row) db.diff_jobs)) unique_violation
  ensure (not (any (same_job_key row) db.diff_jobs)) unique_violation
  ok (record db { diff_jobs = row ∷ db.diff_jobs })

unfoldable pub insert_diff_job :
    Text → NewDiffJob → PublisherDb → Result DbError (DbDiffJob × PublisherDb)
unfolding check_new_job insert_job
insert_diff_job id job db = do
  check_new_job job db
  db' ← insert_job (new_job id job) db
  row ← ok_or (get_diff_job db' id) not_found
  ok (row, db')

-- The answer to the result of the `INSERT`.
unfoldable pub job_or_existing :
    Text
    → NewDiffJob
    → PublisherDb
    → Result DbError PublisherDb
    → Result DbError (DbDiffJob × PublisherDb)
job_or_existing id job db (ok db') = do row ← ok_or (get_diff_job db' id) not_found; ok (row, db')
job_or_existing id job db (err unique_violation) = do
  row ← ok_or (find (same_job_key (new_job id job)) db.diff_jobs) not_found
  ok (row, db)
job_or_existing id job db (err e) = err e

unfoldable pub insert_or_get_diff_job :
    Text → NewDiffJob → PublisherDb → Result DbError (DbDiffJob × PublisherDb)
unfolding check_new_job insert_job job_or_existing
insert_or_get_diff_job id job db = do
  check_new_job job db
  job_or_existing id job db (insert_job (new_job id job) db)

-- `UPDATE diff_jobs SET ... WHERE job_id = ?`, and the error where no row has the identifier.
unfoldable pub update_job :
    Text → (DbDiffJob → DbDiffJob) → PublisherDb → Result DbError PublisherDb
unfolding update_some
update_job job_id set db = do
  diff_jobs ← ok_or (update_some (has_job_id job_id) set db.diff_jobs) not_found
  ok (record db { diff_jobs = diff_jobs })

unfoldable pub set_diff_job_running : Text → ℕ → PublisherDb → Result DbError PublisherDb
unfolding update_job
set_diff_job_running job_id now =
    update_job job_id λ j. record j { status = running; started_at = some now }

unfoldable pub set_diff_job_completed :
    Text → Text → ℤ → List ℕ → ℤ → ℕ → PublisherDb → Result DbError PublisherDb
unfolding update_job
set_diff_job_completed job_id diff_path size hash time_ms now db = do
  validate_hash_size hash blake3_hash_size
  update_job job_id
      (λ j. record j {
        status = completed;
        diff_path = some diff_path;
        diff_size_bytes = some size;
        diff_hash_blake3 = some hash;
        computation_time_ms = some time_ms;
        completed_at = some now;
      })
      db

unfoldable pub set_diff_job_failed : Text → Text → ℕ → PublisherDb → Result DbError PublisherDb
unfolding update_job
set_diff_job_failed job_id error_message now =
    update_job job_id
      λ j. record j { status = failed; error_message = some error_message; completed_at = some now }

abbrev pub is_running : DiffJobStatus → Bool
is_running running = true
is_running _ = false

-- `datetime(started_at, '+' || ? || ' minutes') < datetime('now')`, for a timeout that is not
-- negative and no date beyond the year 9999.
unfoldable pub is_stale : ℕ → ℕ → DbDiffJob → Bool
is_stale timeout_minutes now j =
    is_running j.status
    && (elim j.started_at [ none ↦ false | some t ↦ ltb (t + timeout_minutes * 60) now ])

unfoldable pub reset_stale_diff_jobs : ℕ → ℕ → PublisherDb → PublisherDb
unfolding is_stale update_where
reset_stale_diff_jobs timeout_minutes now db = record db {
  diff_jobs =
      update_where (is_stale timeout_minutes now)
        (λ j. record j {
          status = pending;
          started_at = none;
          error_message = some (ascii "Reset from stale running state");
        })
        db.diff_jobs;
}

-- A deletion says whether it removed a row.
unfoldable pub delete_diff_job : Text → PublisherDb → Bool × PublisherDb
unfolding delete_where
delete_diff_job job_id db = (
  any (has_job_id job_id) db.diff_jobs,
  record db { diff_jobs = delete_where (has_job_id job_id) db.diff_jobs },
)

abbrev pub names_version : Text → DbDiffJob → Bool
names_version id j = text_eq j.from_version_id id || text_eq j.to_version_id id

-- The foreign keys of the jobs delete them along with either version.
unfoldable pub delete_version : Text → PublisherDb → Bool × PublisherDb
unfolding delete_where
delete_version version_id db = (
  any (has_version_id version_id) db.versions,
  record db {
    versions = delete_where (has_version_id version_id) db.versions;
    diff_jobs = delete_where (names_version version_id) db.diff_jobs;
  },
)

unfoldable pub delete_diff_jobs_for_version : Text → PublisherDb → PublisherDb
unfolding delete_where
delete_diff_jobs_for_version version_id db = record db {
  diff_jobs = delete_where (names_version version_id) db.diff_jobs;
}

abbrev pub is_completed : DiffJobStatus → Bool
is_completed completed = true
is_completed _ = false

-- The known paths: those of completed jobs that have one.
unfoldable pub is_known_file : PublisherDb → Text → Bool
is_known_file db path =
    any
      (λ j. is_completed j.status && (elim j.diff_path [ none ↦ false | some p ↦ text_eq p path ]))
      db.diff_jobs

-- The files of the directory, or `none` if it does not exist, that are no completed job's.
unfoldable pub find_orphaned_diff_files : Option (List Text) → PublisherDb → List Text
unfolding is_known_file
find_orphaned_diff_files none db = []
find_orphaned_diff_files (some files) db = retain (λ path. not (is_known_file db path)) files
