-- ===== src/Tests/Db.antt =====
-- The theorems on the databases of the publisher and of the client at concrete inputs.
use deltaship.Prelude.{All, ◌≡◌, refl, Option, none, some, [], ◌∷◌, true, false, if◌then◌else◌, ◌⊎◌}
use deltaship.Prelude.Text.{Text, ascii, text_eq}
use deltaship.Prelude.Int.{pos}
use deltaship.Prelude.Result.{ok}
use deltaship.Core.Version.{Version}
use deltaship.Db.Models.{validate_platform, validate_diff_algorithm}
use deltaship.Db.Models.JobStatus.{running}
use deltaship.Db.Publisher.{
  PublisherDb, NewBinary, DbBinary, DbVersion, DbDiffJob, insert_binary, get_version,
}
use deltaship.Db.Publisher.Jobs.{
  NewDiffJob, new_job, check_new_job, insert_job, job_or_existing, insert_or_get_diff_job,
  reset_stale_diff_jobs, get_diff_job,
}
use deltaship.Db.Publisher.Invariant
use deltaship.Db.Publisher.Trace
use deltaship.Db.Publisher.Trace.{empty_publisher_db, reached-IsConsistent}
use deltaship.Db.Publisher.Again.{
  insert_or_get_diff_job_twice, IsInTime, IsLate, IsLeftAlone, reset_job, reset_stale_diff_jobs_lem,
}
use deltaship.Db.Client.{ClientDb, NewManagedBinary, DbRollbackBackup}
use deltaship.Db.Client.Backups.{get_backup, delete_expired_backups}
use deltaship.Db.Client.Backups.Expiry.{same_day-survives}
use deltaship.Db.Client.Trace.{empty_client_db}
use deltaship.Tests.Fixtures.{numbered, v1}

abbrev parse_one : Text → Option (Version numbered)
parse_one s = if text_eq s (ascii "1.0.0") then some v1 else none

abbrev editor : DbBinary
editor = record {
  binary_id = ascii "b1";
  binary_name = ascii "editor";
  platform = ascii "linux-x86_64";
  binary_path = ascii "/bin/editor";
  description = none;
}

abbrev stored : Text → Text → DbVersion
stored id string = record {
  version_id = id;
  binary_id = ascii "b1";
  version_string = string;
  file_path = ascii "/bin/editor";
  file_size_bytes = pos 7;
  file_hash_blake3 = [];
  file_hash_sha256 = [];
  signature_ed25519 = none;
  signature_timestamp = none;
  registered_at = some 0;
  published_at = none;
  is_published = false;
}

-- One binary with two versions.
abbrev two_versions : PublisherDb
two_versions = record {
  binaries = editor ∷ [];
  versions = stored (ascii "v1") (ascii "1.0.0") ∷ stored (ascii "v2") (ascii "2.0.0") ∷ [];
  diff_jobs = [];
}

abbrev wanted : NewDiffJob
wanted = record {
  from_version_id = ascii "v1";
  to_version_id = ascii "v2";
  diff_algorithm = ascii "bsdiff";
}

abbrev one_job : PublisherDb
one_job = record two_versions { diff_jobs = new_job (ascii "j1") wanted ∷ [] }

insert_or_get_diff_job_twice_example :
    insert_or_get_diff_job (ascii "j2") wanted one_job ≡ ok (new_job (ascii "j1") wanted, one_job)
unfolding insert_or_get_diff_job check_new_job insert_job job_or_existing get_diff_job get_version
    validate_diff_algorithm
insert_or_get_diff_job_twice_example =
    insert_or_get_diff_job_twice (ascii "j1") (ascii "j2") wanted two_versions refl

abbrev running_job : DbDiffJob
running_job = record (new_job (ascii "j1") wanted) { status = running; started_at = some 5 }

abbrev job_runs : PublisherDb
job_runs = record two_versions { diff_jobs = running_job ∷ [] }

reset_stale_diff_jobs_lem_example :
    All (IsInTime 1 100) (reset_stale_diff_jobs 1 100 job_runs).diff_jobs
    × ((IsLate 1 100 running_job
          × (get_diff_job (reset_stale_diff_jobs 1 100 job_runs) (ascii "j1")
              ≡ some (reset_job running_job)))
        ⊎ (IsLeftAlone 1 100 running_job
            × (get_diff_job (reset_stale_diff_jobs 1 100 job_runs) (ascii "j1")
                ≡ some running_job)))
unfolding get_diff_job text_eq
reset_stale_diff_jobs_lem_example =
    reset_stale_diff_jobs_lem 1 100 job_runs (ascii "j1") running_job refl

abbrev new_editor : NewBinary
new_editor = record {
  binary_name = ascii "editor";
  platform = ascii "linux-x86_64";
  binary_path = ascii "/bin/editor";
  description = none;
}

abbrev with_editor : PublisherDb
with_editor = record empty_publisher_db { binaries = editor ∷ [] }

reached-IsConsistent_example : Invariant.IsConsistent with_editor
unfolding insert_binary validate_platform
reached-IsConsistent_example =
    reached-IsConsistent (λ path. some path) (λ path. true) parse_one
      (Trace.continued (Trace.created refl) (Trace.binary_inserted (ascii "b1") new_editor refl))

abbrev new_managed : NewManagedBinary
new_managed = record {
  binary_id = ascii "b1";
  binary_name = ascii "editor";
  platform = ascii "linux-x86_64";
  install_path = ascii "/opt/editor";
  publisher_public_key = [];
}

abbrev backup : DbRollbackBackup
backup = record {
  backup_id = 1;
  binary_id = ascii "b1";
  version_id = ascii "v1";
  version_string = ascii "1.0.0";
  backup_path = ascii "/backups/editor";
  backup_hash_blake3 = [];
  backup_size_bytes = pos 7;
  created_at = ascii "2024-01-01 00:00:00";
  expires_at = some (ascii "2024-02-01T08:00:00");
}

abbrev with_backup : ClientDb
with_backup = record empty_client_db { rollback_backups = backup ∷ [] }

same_day-survives_example :
    get_backup (delete_expired_backups (ascii "2024-02-01 20:00:00") with_backup) 1 ≡ some backup
unfolding get_backup
same_day-survives_example =
    same_day-survives (ascii "2024-02-01") (ascii "08:00:00") (ascii "20:00:00") with_backup 1 refl
      refl
