-- ===== src/Db/Publisher/Trace.antt =====
-- crates/deltaship-db/src/publisher.rs: the databases that sequences of operations reach. An
-- operation that returns an error leaves the database as it was, so it makes no step.
use deltaship.Prelude.{ℕ, ◌≡◌, subst, Bool, Option, List, []}
use deltaship.Prelude.Text.{Text}
use deltaship.Prelude.Int.{ℤ}
use deltaship.Prelude.Result.{ok}
use deltaship.Core.Version.{Semver, Version}
use deltaship.Db.Publisher.{
  NewBinary, NewVersion, DbDiffJob, PublisherDb, insert_binary, insert_version,
  set_version_signature, set_version_published, set_version_unpublished, update_version_hashes,
}
use deltaship.Db.Publisher.Jobs.{
  NewDiffJob, insert_diff_job, insert_or_get_diff_job, set_diff_job_running, set_diff_job_completed,
  set_diff_job_failed, reset_stale_diff_jobs, delete_diff_job, delete_version,
  delete_diff_jobs_for_version,
}
use deltaship.Db.Publisher.Invariant.{IsConsistent}
use deltaship.Db.Publisher.Preserves.{
  set_version_signature-IsConsistent, set_version_published-IsConsistent,
  set_version_unpublished-IsConsistent, update_version_hashes-IsConsistent,
  insert_binary-IsConsistent, insert_version-IsConsistent,
}
use deltaship.Db.Publisher.JobSteps.{
  insert_diff_job-IsConsistent, insert_or_get_diff_job-IsConsistent,
  set_diff_job_running-IsConsistent, set_diff_job_completed-IsConsistent,
  set_diff_job_failed-IsConsistent, reset_stale_diff_jobs-IsConsistent,
}
use deltaship.Db.Publisher.Deletions.{
  delete_diff_job-IsConsistent, delete_version-IsConsistent,
  delete_diff_jobs_for_version-IsConsistent,
}

abbrev pub empty_publisher_db : PublisherDb
empty_publisher_db = record { binaries = []; versions = []; diff_jobs = [] }

empty-IsConsistent : IsConsistent empty_publisher_db
empty-IsConsistent = record {
  binary_ids = tt;
  binary_names = tt;
  version_ids = tt;
  version_strings = tt;
  job_ids = tt;
  job_keys = tt;
  versions_belong = tt;
  versions_valid = tt;
  jobs_join = tt;
  jobs_valid = tt;
}

module _ (canonicalize : Text → Option Text) (is_readable_file : Text → Bool) {S : Semver}
    (parse : Text → Option (Version S)) where
  -- The operations that change the database.
  pub data Step : PublisherDb → PublisherDb → Type 0 where
    binary_inserted :
        {db db' : PublisherDb} (id : Text) (binary : NewBinary)
        → insert_binary canonicalize is_readable_file id binary db ≡ ok db'
        → Step db db'
    version_inserted :
        {db db' : PublisherDb} (id : Text) (version : NewVersion)
        → insert_version parse id version db ≡ ok db'
        → Step db db'
    version_signed :
        {db db' : PublisherDb} (id : Text) (signature : List ℕ) (timestamp : Text)
        → set_version_signature id signature timestamp db ≡ ok db'
        → Step db db'
    version_published :
        {db db' : PublisherDb} (id : Text) (now : ℕ)
        → set_version_published id now db ≡ ok db'
        → Step db db'
    version_unpublished :
        {db db' : PublisherDb} (id : Text) → set_version_unpublished id db ≡ ok db' → Step db db'
    hashes_updated :
        {db db' : PublisherDb} (id : Text) (blake3 sha256 : List ℕ) (size : ℤ)
        → update_version_hashes id blake3 sha256 size db ≡ ok db'
        → Step db db'
    job_inserted :
        {db db' : PublisherDb} (id : Text) (job : NewDiffJob) (row : DbDiffJob)
        → insert_diff_job id job db ≡ ok (row, db')
        → Step db db'
    job_inserted_or_found :
        {db db' : PublisherDb} (id : Text) (job : NewDiffJob) (row : DbDiffJob)
        → insert_or_get_diff_job id job db ≡ ok (row, db')
        → Step db db'
    job_started :
        {db db' : PublisherDb} (id : Text) (now : ℕ)
        → set_diff_job_running id now db ≡ ok db'
        → Step db db'
    job_completed :
        {db db' : PublisherDb} (id path : Text) (size : ℤ) (hash : List ℕ) (time_ms : ℤ) (now : ℕ)
        → set_diff_job_completed id path size hash time_ms now db ≡ ok db'
        → Step db db'
    job_failed :
        {db db' : PublisherDb} (id message : Text) (now : ℕ)
        → set_diff_job_failed id message now db ≡ ok db'
        → Step db db'
    jobs_reset :
        {db db' : PublisherDb} (timeout now : ℕ)
        → reset_stale_diff_jobs timeout now db ≡ db'
        → Step db db'
    job_deleted : {db db' : PublisherDb} (id : Text) → (delete_diff_job id db).1 ≡ db' → Step db db'
    version_deleted :
        {db db' : PublisherDb} (id : Text) → (delete_version id db).1 ≡ db' → Step db db'
    version_jobs_deleted :
        {db db' : PublisherDb} (id : Text) → delete_diff_jobs_for_version id db ≡ db' → Step db db'

  pub data IsReached : PublisherDb → Type 0 where
    created : {db : PublisherDb} → empty_publisher_db ≡ db → IsReached db
    continued : {db db' : PublisherDb} → IsReached db → Step db db' → IsReached db'

  step-IsConsistent : {db db' : PublisherDb} → Step db db' → IsConsistent db → IsConsistent db'
  step-IsConsistent (binary_inserted id binary h) I =
      insert_binary-IsConsistent I canonicalize is_readable_file id binary h
  step-IsConsistent (version_inserted id version h) I =
      insert_version-IsConsistent I parse id version h
  step-IsConsistent (version_signed id signature timestamp h) I =
      set_version_signature-IsConsistent I id signature timestamp h
  step-IsConsistent (version_published id now h) I = set_version_published-IsConsistent I id now h
  step-IsConsistent (version_unpublished id h) I = set_version_unpublished-IsConsistent I id h
  step-IsConsistent (hashes_updated id blake3 sha256 size h) I =
      update_version_hashes-IsConsistent I id blake3 sha256 size h
  step-IsConsistent (job_inserted id job row h) I = insert_diff_job-IsConsistent I id job h
  step-IsConsistent (job_inserted_or_found id job row h) I =
      insert_or_get_diff_job-IsConsistent I id job h
  step-IsConsistent (job_started id now h) I = set_diff_job_running-IsConsistent I id now h
  step-IsConsistent (job_completed id path size hash time_ms now h) I =
      set_diff_job_completed-IsConsistent I id path size hash time_ms now h
  step-IsConsistent (job_failed id message now h) I =
      set_diff_job_failed-IsConsistent I id message now h
  step-IsConsistent (jobs_reset timeout now h) I =
      subst IsConsistent h (reset_stale_diff_jobs-IsConsistent I timeout now)
  step-IsConsistent (job_deleted id h) I = subst IsConsistent h (delete_diff_job-IsConsistent I id)
  step-IsConsistent (version_deleted id h) I =
      subst IsConsistent h (delete_version-IsConsistent I id)
  step-IsConsistent (version_jobs_deleted id h) I =
      subst IsConsistent h (delete_diff_jobs_for_version-IsConsistent I id)

  -- Whatever operations the publisher runs from an empty database, in whatever order: keys are
  -- unique, each version has its binary and hashes of the right size and is dated exactly while it
  -- is published, each diff job joins two present versions of one binary, and a job that runs has a
  -- start, a completed one a diff file with its hash, a failed one an error.
  pub reached-IsConsistent : {db : PublisherDb} → IsReached db → IsConsistent db
  reached-IsConsistent (created e) = subst IsConsistent e empty-IsConsistent
  reached-IsConsistent (continued before step) =
      step-IsConsistent step (reached-IsConsistent before)
