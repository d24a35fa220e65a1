-- ===== src/Db/Publisher/Deletions.antt =====
-- crates/deltaship-db/src/publisher.rs: every deletion keeps the database consistent.
use deltaship.Prelude.{◌∙◌, Bool, List, [], ◌∷◌, arith, All, All-retain, inl, inr, Bool-cases}
use deltaship.Prelude.Text.{Text}
use deltaship.Db.Table.{delete_where, delete_where-Unique}
use deltaship.Db.Publisher.{
  DbDiffJob, PublisherDb, has_version_id, same_version_id, same_version_string,
}
use deltaship.Db.Publisher.Jobs.{
  has_job_id, same_job_id, same_job_key, names_version, delete_diff_job, delete_version,
  delete_diff_jobs_for_version,
}
use deltaship.Db.Publisher.Invariant.{JoinsVersions, IsConsistent, owner-delete_where}

module _ {db : PublisherDb} (I : IsConsistent db) where
  delete_jobs-IsConsistent :
      (p : DbDiffJob → Bool) → IsConsistent (record db { diff_jobs = delete_where p db.diff_jobs })
  unfolding delete_where
  delete_jobs-IsConsistent p = record {
    binary_ids = I.binary_ids;
    binary_names = I.binary_names;
    version_ids = I.version_ids;
    version_strings = I.version_strings;
    job_ids = delete_where-Unique same_job_id p db.diff_jobs I.job_ids;
    job_keys = delete_where-Unique same_job_key p db.diff_jobs I.job_keys;
    versions_belong = I.versions_belong;
    versions_valid = I.versions_valid;
    jobs_join = All-retain _ _ db.diff_jobs I.jobs_join;
    jobs_valid = All-retain _ _ db.diff_jobs I.jobs_valid;
  }

  pub delete_diff_job-IsConsistent : (id : Text) → IsConsistent (delete_diff_job id db).1
  unfolding delete_diff_job
  delete_diff_job-IsConsistent id = delete_jobs-IsConsistent (has_job_id id)

  pub delete_diff_jobs_for_version-IsConsistent :
      (id : Text) → IsConsistent (delete_diff_jobs_for_version id db)
  unfolding delete_diff_jobs_for_version
  delete_diff_jobs_for_version-IsConsistent id = delete_jobs-IsConsistent (names_version id)

  -- The jobs that are left do not name the version.
  left_jobs-join :
      (id : Text) (js : List DbDiffJob)
      → All (JoinsVersions db.versions) js
      → All
          (JoinsVersions (delete_where (has_version_id id) db.versions))
          (delete_where (names_version id) js)
  unfolding delete_where
  left_jobs-join id [] h = tt
  left_jobs-join id (j ∷ js) h = elim (Bool-cases (names_version id j)) [
    | inl named ↦ rw named (left_jobs-join id js h.1)
    | inr other ↦ rw other (
      (
        h.0.0,
        owner-delete_where id db.versions j.from_version_id (ground arith) ∙ h.0.1,
        owner-delete_where id db.versions j.to_version_id (ground arith) ∙ h.0.2,
      ),
      left_jobs-join id js h.1,
    )
  ]

  pub delete_version-IsConsistent : (id : Text) → IsConsistent (delete_version id db).1
  unfolding delete_version delete_where
  delete_version-IsConsistent id = record {
    binary_ids = I.binary_ids;
    binary_names = I.binary_names;
    version_ids = delete_where-Unique same_version_id _ db.versions I.version_ids;
    version_strings = delete_where-Unique same_version_string _ db.versions I.version_strings;
    job_ids = delete_where-Unique same_job_id _ db.diff_jobs I.job_ids;
    job_keys = delete_where-Unique same_job_key _ db.diff_jobs I.job_keys;
    versions_belong = All-retain _ _ db.versions I.versions_belong;
    versions_valid = All-retain _ _ db.versions I.versions_valid;
    jobs_join = left_jobs-join id db.diff_jobs I.jobs_join;
    jobs_valid = All-retain _ _ db.diff_jobs I.jobs_valid;
  }
