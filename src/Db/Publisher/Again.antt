-- ===== src/Db/Publisher/Again.antt =====
-- crates/deltaship-db/src/publisher.rs: asking for a job twice, and the reset of stale jobs.
use deltaship.Prelude.{
  arith, ltb, ℕ, ◌+◌, ◌*◌, any, ◌≤◌, ◌<◌, ◌≢◌, All, any-find, ◌≡◌, refl, sym, subst, ◌∙◌, false,
  not, none, some, List, [], ◌∷◌, find, if◌then◌else◌, inl, inr, Bool-cases, ◌⊎◌, Option, true,
}
use deltaship.Prelude.Text.{Text, ascii, text_eq_refl}
use deltaship.Prelude.Result.{Result, ok, err, ensure, ok_or, >>=-eq-ok, ok_or-eq-ok, ok_injective}
use deltaship.Db.{DbError, not_found, invalid_data, unique_violation, foreign_key_violation, io}
use deltaship.Db.Table.{update_where, find-update_where}
use deltaship.Db.Models.JobStatus.{DiffJobStatus, pending, running, completed, failed}
use deltaship.Db.Publisher.{DbDiffJob, PublisherDb, get_version}
use deltaship.Db.Publisher.Jobs.{
  NewDiffJob, has_job_id, same_job_id, same_job_key, get_diff_job, check_new_job, new_job,
  insert_job, job_or_existing, insert_or_get_diff_job, is_stale, reset_stale_diff_jobs,
}

-- A job with the wanted key is there, and is the first of them.
insert_job-existing :
    (id : Text) (job : NewDiffJob) (db : PublisherDb) {row : DbDiffJob}
    → find (same_job_key (new_job id job)) db.diff_jobs ≡ some row
    → insert_job (new_job id job) db ≡ err unique_violation
unfolding insert_job
insert_job-existing id job db {row} h =
    let p = same_job_key (new_job id job) in
    rw (any-find p db.diff_jobs {x = row} h)
      (elim (Bool-cases (any (same_job_id (new_job id job)) db.diff_jobs)) [
        | inl taken ↦ rw taken refl
        | inr free ↦ rw free refl
      ])

insert_job-ok :
    (row : DbDiffJob) (db : PublisherDb) {db' : PublisherDb}
    → insert_job row db ≡ ok db'
    → record db { diff_jobs = row ∷ db.diff_jobs } ≡ db'
unfolding insert_job
insert_job-ok row db h =
    let ids = any (same_job_id row) db.diff_jobs in
    let keys = any (same_job_key row) db.diff_jobs in
    let (_, _, h1) = >>=-eq-ok (ensure (not ids) unique_violation) _ h in
    let (_, _, h2) = >>=-eq-ok (ensure (not keys) unique_violation) _ h1 in ok_injective h2

-- The database and the row that a request leaves answer the next request in the same way.
abbrev IsSettled : NewDiffJob → DbDiffJob × PublisherDb → Type 0
IsSettled job (row, db) =
    (id : Text)
    → (check_new_job job db ≡ ok tt)
      × (find (same_job_key (new_job id job)) db.diff_jobs ≡ some row)

settled :
    (id : Text) (job : NewDiffJob) (db : PublisherDb) (r : Result DbError PublisherDb)
    → check_new_job job db ≡ ok tt
    → insert_job (new_job id job) db ≡ r
    → {found : DbDiffJob × PublisherDb} → job_or_existing id job db r ≡ ok found
    → IsSettled job found
unfolding job_or_existing get_diff_job check_new_job get_version
settled id job db (ok d) checked inserted {found} h id' =
    let d' = record db { diff_jobs = new_job id job ∷ db.diff_jobs } in
    let same : d' ≡ d = insert_job-ok (new_job id job) db inserted in
    let answer : job_or_existing id job db (ok d') ≡ ok found =
      subst (λ (x : PublisherDb). job_or_existing id job db (ok x) ≡ ok found) (sym same) h in
    let here : job_or_existing id job db (ok d') ≡ ok (new_job id job, d') =
      rw (text_eq_refl id) refl in
    subst (λ (f : DbDiffJob × PublisherDb). IsSettled job f) (ok_injective (sym here ∙ answer))
      (λ id''. (
        checked,
        rw
            (
              text_eq_refl job.from_version_id,
              text_eq_refl job.to_version_id,
              text_eq_refl job.diff_algorithm,
            )
            refl,
      ))
      id'
settled id job db (err unique_violation) checked inserted h id' =
    let (row, found, e) =
      >>=-eq-ok (ok_or (find (same_job_key (new_job id job)) db.diff_jobs) not_found) _ h in
    subst (λ (f : DbDiffJob × PublisherDb). IsSettled job f) (ok_injective e)
      (λ id''. (checked, ok_or-eq-ok _ _ found)) id'
settled id job db (err not_found) checked inserted h id' = absurd (cc)
settled id job db (err invalid_data) checked inserted h id' = absurd (cc)
settled id job db (err foreign_key_violation) checked inserted h id' = absurd (cc)
settled id job db (err io) checked inserted h id' = absurd (cc)

-- Asking for the same job again, with whatever new identifier, gives the row of the first request
-- and changes nothing.
pub insert_or_get_diff_job_twice :
    (id id' : Text) (job : NewDiffJob) (db : PublisherDb) {row : DbDiffJob} {db' : PublisherDb}
    → insert_or_get_diff_job id job db ≡ ok (row, db')
    → insert_or_get_diff_job id' job db' ≡ ok (row, db')
unfolding insert_or_get_diff_job
insert_or_get_diff_job_twice id id' job db {row} {db'} h =
    let (_, checked, answered) = >>=-eq-ok (check_new_job job db) _ h in
    let (again, found) =
      settled id job db (insert_job (new_job id job) db) checked refl answered id' in
    rw (again, insert_job-existing id' job db' found, job_or_existing, found) refl

-- What a job is after a reset of the jobs that ran out of time.
abbrev pub reset_job : DbDiffJob → DbDiffJob
reset_job j = record j {
  status = pending;
  started_at = none;
  error_message = some (ascii "Reset from stale running state");
}

not_stale :
    (timeout now : ℕ) (js : List DbDiffJob)
    → any (is_stale timeout now) (update_where (is_stale timeout now) reset_job js) ≡ false
unfolding update_where is_stale
not_stale timeout now [] = refl
not_stale timeout now (j ∷ js) = elim (Bool-cases (is_stale timeout now j)) [
  | inl stale ↦ rw stale (not_stale timeout now js)
  | inr fresh ↦ rw fresh (rw fresh (not_stale timeout now js))
]

reset_stale_diff_jobs-get_diff_job :
    (timeout now : ℕ) (db : PublisherDb) (id : Text)
    → get_diff_job (reset_stale_diff_jobs timeout now db) id ≡ (elim (get_diff_job db id) [
      | none ↦ none
      | some j ↦ some (if is_stale timeout now j then reset_job j else j)
    ])
unfolding reset_stale_diff_jobs get_diff_job
reset_stale_diff_jobs-get_diff_job timeout now db id =
    find-update_where (is_stale timeout now) reset_job (has_job_id id) (λ j. refl) db.diff_jobs

-- A job that runs, and has done so for no longer than the timeout.
abbrev pub IsInTime : ℕ → ℕ → DbDiffJob → Type 0
IsInTime timeout now j =
    (t : ℕ) → j.status ≡ running → j.started_at ≡ some t → now ≤ t + timeout * 60

-- A job that a reset leaves alone: it does not run, its start is not known, or it is in time.
abbrev pub IsLeftAlone : ℕ → ℕ → DbDiffJob → Type 0
IsLeftAlone timeout now j =
    (j.status ≢ running)
    ⊎ (j.started_at ≡ none)
    ⊎ ((t : ℕ) × (j.started_at ≡ some t) × (now ≤ t + timeout * 60))

fresh-IsInTime :
    (timeout now : ℕ) (js : List DbDiffJob)
    → any (is_stale timeout now) js ≡ false
    → All (IsInTime timeout now) js
unfolding is_stale
fresh-IsInTime timeout now [] h = tt
fresh-IsInTime timeout now (j ∷ js) h = (
  λ t runs started. elim (Bool-cases (is_stale timeout now j)) [
    | inl stale ↦ absurd (cc (rw stale at h))
    | inr fresh ↦ ground (arith, rw (is_stale, runs, started) at fresh)
  ],
  elim (Bool-cases (is_stale timeout now j)) [
    | inl stale ↦ absurd (cc (rw stale at h))
    | inr fresh ↦ fresh-IsInTime timeout now js (rw fresh at h)
  ],
)

-- A job that runs and has a start before the timeout.
abbrev pub IsLate : ℕ → ℕ → DbDiffJob → Type 0
IsLate timeout now j =
    (j.status ≡ running) × ((t : ℕ) × (j.started_at ≡ some t) × (t + timeout * 60 < now))

stale-cases :
    (timeout now : ℕ) (status : DiffJobStatus) (started : Option ℕ) (j : DbDiffJob)
    → j.status ≡ status
    → j.started_at ≡ started
    → ((is_stale timeout now j ≡ true) × IsLate timeout now j)
      ⊎ ((is_stale timeout now j ≡ false) × IsLeftAlone timeout now j)
unfolding is_stale
stale-cases timeout now running (some t) j e k = elim (Bool-cases (ltb (t + timeout * 60) now)) [
  | inl late ↦ inl (rw (is_stale, e, k) late, (e, (t, k, ground arith)))
  | inr early ↦ inr (rw (is_stale, e, k) early, inr (inr (t, k, ground arith)))
]
stale-cases timeout now running none j e k = inr (rw (is_stale, e, k) refl, inr (inl k))
stale-cases timeout now pending o j e k = inr (rw (is_stale, e) refl, inl (λ h. cc))
stale-cases timeout now completed o j e k = inr (rw (is_stale, e) refl, inl (λ h. cc))
stale-cases timeout now failed o j e k = inr (rw (is_stale, e) refl, inl (λ h. cc))

-- After a reset, each job that runs and has a start has run for no longer than the timeout, which is
-- in minutes, the times in seconds. The job with an identifier goes back to pending, without a start
-- and with a message, if it ran for longer; if it did not run, has no start or is in time, it stays
-- as it is.
pub reset_stale_diff_jobs_lem :
    (timeout now : ℕ) (db : PublisherDb) (id : Text) (j : DbDiffJob)
    → get_diff_job db id ≡ some j
    → let db' = reset_stale_diff_jobs timeout now db in
      All (IsInTime timeout now) db'.diff_jobs
      × ((IsLate timeout now j
            × (get_diff_job db' id
                ≡ some (record j {
                  status = pending;
                  started_at = none;
                  error_message = some (ascii "Reset from stale running state");
                })))
          ⊎ (IsLeftAlone timeout now j × (get_diff_job db' id ≡ some j)))
unfolding reset_stale_diff_jobs
reset_stale_diff_jobs_lem timeout now db id j there =
    let after = reset_stale_diff_jobs-get_diff_job timeout now db id in
    (
      fresh-IsInTime timeout now _ (not_stale timeout now db.diff_jobs),
      elim (stale-cases timeout now j.status j.started_at j refl refl) [
        | inl (stale, late) ↦ inl (late, after ∙ rw (there, stale) refl)
        | inr (fresh, alone) ↦ inr (alone, after ∙ rw (there, fresh) refl)
      ],
    )
