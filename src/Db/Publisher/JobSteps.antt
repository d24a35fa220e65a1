-- ===== src/Db/Publisher/JobSteps.antt =====
-- crates/deltaship-db/src/publisher.rs: every operation on diff jobs keeps the
-- database consistent.
use deltaship.Prelude.{ℕ, ◌≡◌, refl, sym, subst, ap, ◌∙◌, Bool, not, some, List, arith, any, find}
use deltaship.Prelude.Text.{Text, text_eq, text_eq-eq}
use deltaship.Prelude.Int.{ℤ}
use deltaship.Prelude.Result.{
  Result, ok, err, ensure, ok_or, >>=-eq-ok, ensure-eq-ok, ok_or-eq-ok, ok_injective,
}
use deltaship.Db.{DbError, not_found, invalid_data, unique_violation, foreign_key_violation, io}
use deltaship.Db.Table.{
  update_some-eq-some, update_where, update_some, update_where-Unique, All-update_where,
}
use deltaship.Db.Models.{validate_hash_size, blake3_hash_size}
use deltaship.Db.Publisher.{DbDiffJob, PublisherDb, get_version}
use deltaship.Db.Publisher.Jobs.{
  NewDiffJob, has_job_id, same_job_id, same_job_key, get_diff_job, check_new_job, new_job,
  insert_job, insert_diff_job, job_or_existing, insert_or_get_diff_job, update_job,
  set_diff_job_running, set_diff_job_completed, set_diff_job_failed, reset_stale_diff_jobs,
}
use deltaship.Db.Publisher.Invariant.{owner, JoinsVersions, IsJobRow, IsConsistent, owner-find}
use deltaship.Db.Publisher.Preserves.{not-true, validate_hash_size-ok}

-- What the checks of a new job establish.
pub check_new_job-joins :
    (job : NewDiffJob) (db : PublisherDb) (id : Text) {u : Unit {0}}
    → check_new_job job db ≡ ok u
    → JoinsVersions db.versions (new_job id job)
unfolding check_new_job get_version
check_new_job-joins job db id h =
    let from_id = job.from_version_id in
    let to_id = job.to_version_id in
    let (v, from, h1) = >>=-eq-ok (ok_or (get_version db from_id) not_found) _ h in
    let (w, to, h2) = >>=-eq-ok (ok_or (get_version db to_id) not_found) _ h1 in
    let (_, same, _) = >>=-eq-ok (ensure (text_eq v.binary_id w.binary_id) invalid_data) _ h2 in
    let one = text_eq-eq v.binary_id w.binary_id (ensure-eq-ok _ _ same) in
    (
      v.binary_id,
      owner-find db.versions from_id (ok_or-eq-ok _ _ from),
      owner-find db.versions to_id (ok_or-eq-ok _ _ to) ∙ ap some (sym one),
    )

module _ {db : PublisherDb} (I : IsConsistent db) where
  insert_job-IsConsistent :
      (row : DbDiffJob)
      → JoinsVersions db.versions row
      → IsJobRow row.status row
      → {db' : PublisherDb} → insert_job row db ≡ ok db'
      → IsConsistent db'
  unfolding insert_job
  insert_job-IsConsistent row joins valid h =
      let ids = any (same_job_id row) db.diff_jobs in
      let keys = any (same_job_key row) db.diff_jobs in
      let (_, new_id, h1) = >>=-eq-ok (ensure (not ids) unique_violation) _ h in
      let (_, new_key, h2) = >>=-eq-ok (ensure (not keys) unique_violation) _ h1 in
      subst IsConsistent (ok_injective h2) record {
        binary_ids = I.binary_ids;
        binary_names = I.binary_names;
        version_ids = I.version_ids;
        version_strings = I.version_strings;
        job_ids = (not-true ids (ensure-eq-ok (not ids) _ new_id), I.job_ids);
        job_keys = (not-true keys (ensure-eq-ok (not keys) _ new_key), I.job_keys);
        versions_belong = I.versions_belong;
        versions_valid = I.versions_valid;
        jobs_join = (joins, I.jobs_join);
        jobs_valid = (valid, I.jobs_valid);
      }

  pub insert_diff_job-IsConsistent :
      (id : Text) (job : NewDiffJob) {row : DbDiffJob} {db' : PublisherDb}
      → insert_diff_job id job db ≡ ok (row, db')
      → IsConsistent db'
  unfolding insert_diff_job
  insert_diff_job-IsConsistent id job {row} {db'} h =
      let (_, checked, h1) = >>=-eq-ok (check_new_job job db) _ h in
      let (db'', inserted, h2) = >>=-eq-ok (insert_job (new_job id job) db) _ h1 in
      let (found, _, e) = >>=-eq-ok (ok_or (get_diff_job db'' id) not_found) _ h2 in
      let joins = check_new_job-joins job db id checked in
      subst IsConsistent (ap (λ (p : DbDiffJob × PublisherDb). p.1) (ok_injective e))
        (insert_job-IsConsistent (new_job id job) joins refl inserted)

  job_or_existing-IsConsistent :
      (id : Text) (job : NewDiffJob) (r : Result DbError PublisherDb)
      → ((db' : PublisherDb) → r ≡ ok db' → IsConsistent db')
      → {row : DbDiffJob} {db' : PublisherDb} → job_or_existing id job db r ≡ ok (row, db')
      → IsConsistent db'
  unfolding job_or_existing
  job_or_existing-IsConsistent id job (ok d) kept {row} {db'} h =
      let (_, _, e) = >>=-eq-ok (ok_or (get_diff_job d id) not_found) _ h in
      subst IsConsistent (ap (λ (p : DbDiffJob × PublisherDb). p.1) (ok_injective e)) (kept d refl)
  job_or_existing-IsConsistent id job (err unique_violation) kept h =
      let (_, _, e) =
        >>=-eq-ok (ok_or (find (same_job_key (new_job id job)) db.diff_jobs) not_found) _ h in
      subst IsConsistent (ap (λ (p : DbDiffJob × PublisherDb). p.1) (ok_injective e)) I
  job_or_existing-IsConsistent id job (err not_found) kept h = absurd (cc)
  job_or_existing-IsConsistent id job (err invalid_data) kept h = absurd (cc)
  job_or_existing-IsConsistent id job (err foreign_key_violation) kept h = absurd (cc)
  job_or_existing-IsConsistent id job (err io) kept h = absurd (cc)

  pub insert_or_get_diff_job-IsConsistent :
      (id : Text) (job : NewDiffJob) {row : DbDiffJob} {db' : PublisherDb}
      → insert_or_get_diff_job id job db ≡ ok (row, db')
      → IsConsistent db'
  unfolding insert_or_get_diff_job
  insert_or_get_diff_job-IsConsistent id job h =
      let (_, checked, answered) = >>=-eq-ok (check_new_job job db) _ h in
      let joins = check_new_job-joins job db id checked in
      job_or_existing-IsConsistent id job (insert_job (new_job id job) db)
        (λ d inserted. insert_job-IsConsistent (new_job id job) joins refl inserted) answered

  -- A statement that keeps the keys of the jobs, and what each status records.
  update_job-IsConsistent :
      (p : DbDiffJob → Bool) (set : DbDiffJob → DbDiffJob)
      → ((j : DbDiffJob) → (set j).job_id ≡ j.job_id)
      → ((j : DbDiffJob) → (set j).from_version_id ≡ j.from_version_id)
      → ((j : DbDiffJob) → (set j).to_version_id ≡ j.to_version_id)
      → ((j : DbDiffJob) → (set j).diff_algorithm ≡ j.diff_algorithm)
      → ((j : DbDiffJob) → IsJobRow (set j).status (set j))
      → IsConsistent (record db { diff_jobs = update_where p set db.diff_jobs })
  update_job-IsConsistent p set same_id same_from same_to same_algorithm valid = record {
    binary_ids = I.binary_ids;
    binary_names = I.binary_names;
    version_ids = I.version_ids;
    version_strings = I.version_strings;
    job_ids =
        update_where-Unique p set same_job_id (λ j k. ground (arith, same_id j))
          (λ j k. ground (arith, same_id k)) db.diff_jobs I.job_ids;
    job_keys =
        update_where-Unique p set same_job_key
          (λ j k. ground (arith, same_from j, same_to j, same_algorithm j))
          (λ j k. ground (arith, same_from k, same_to k, same_algorithm k)) db.diff_jobs I.job_keys;
    versions_belong = I.versions_belong;
    versions_valid = I.versions_valid;
    jobs_join =
        All-update_where p set (JoinsVersions db.versions)
          (λ j _ (binary, from, to). (
            binary,
            ap (owner db.versions) (same_from j) ∙ from,
            ap (owner db.versions) (same_to j) ∙ to,
          ))
          db.diff_jobs I.jobs_join;
    jobs_valid =
        All-update_where p set (λ j. IsJobRow j.status j) (λ j _ _. valid j) db.diff_jobs
          I.jobs_valid;
  }

  update_job_by_id-IsConsistent :
      (id : Text) (set : DbDiffJob → DbDiffJob)
      → IsConsistent (record db { diff_jobs = update_where (has_job_id id) set db.diff_jobs })
      → {db' : PublisherDb} → update_job id set db ≡ ok db'
      → IsConsistent db'
  unfolding update_job
  update_job_by_id-IsConsistent id set kept h =
      let p = has_job_id id in
      let (js, found, e) = >>=-eq-ok (ok_or (update_some p set db.diff_jobs) not_found) _ h in
      let here = update_some-eq-some p set db.diff_jobs (ok_or-eq-ok _ _ found) in
      subst IsConsistent (ap (λ js. record db { diff_jobs = js }) here ∙ ok_injective e) kept

  pub set_diff_job_running-IsConsistent :
      (id : Text) (now : ℕ) {db' : PublisherDb}
      → set_diff_job_running id now db ≡ ok db'
      → IsConsistent db'
  unfolding set_diff_job_running
  set_diff_job_running-IsConsistent id now h =
      update_job_by_id-IsConsistent id _
        (update_job-IsConsistent _ _ (λ j. refl) (λ j. refl) (λ j. refl) (λ j. refl)
          (λ j. (now, refl)))
        h

  pub set_diff_job_completed-IsConsistent :
      (id path : Text) (size : ℤ) (hash : List ℕ) (time_ms : ℤ) (now : ℕ) {db' : PublisherDb}
      → set_diff_job_completed id path size hash time_ms now db ≡ ok db'
      → IsConsistent db'
  unfolding set_diff_job_completed
  set_diff_job_completed-IsConsistent id path size hash time_ms now h =
      let (_, sized, h1) = >>=-eq-ok (validate_hash_size hash blake3_hash_size) _ h in
      update_job_by_id-IsConsistent id _
        (update_job-IsConsistent _ _ (λ j. refl) (λ j. refl) (λ j. refl) (λ j. refl)
          (λ j. (path, hash, refl, refl, validate_hash_size-ok hash _ sized)))
        h1

  pub set_diff_job_failed-IsConsistent :
      (id message : Text) (now : ℕ) {db' : PublisherDb}
      → set_diff_job_failed id message now db ≡ ok db'
      → IsConsistent db'
  unfolding set_diff_job_failed
  set_diff_job_failed-IsConsistent id message now h =
      update_job_by_id-IsConsistent id _
        (update_job-IsConsistent _ _ (λ j. refl) (λ j. refl) (λ j. refl) (λ j. refl)
          (λ j. (message, refl)))
        h

  pub reset_stale_diff_jobs-IsConsistent :
      (timeout now : ℕ) → IsConsistent (reset_stale_diff_jobs timeout now db)
  unfolding reset_stale_diff_jobs
  reset_stale_diff_jobs-IsConsistent timeout now =
      update_job-IsConsistent _ _ (λ j. refl) (λ j. refl) (λ j. refl) (λ j. refl) (λ j. refl)
