-- ===== src/Db/Publisher/Invariant.antt =====
-- crates/deltaship-db/src/schema.rs: the constraints of the publisher's tables, and what the
-- operations keep true of the rows beside them.
use deltaship.Prelude.{
  ℕ, ◌≡◌, refl, Bool, true, false, Option, none, some, List, [], ◌∷◌, arith, any, find, length, All,
  if◌then◌else◌,
}
use deltaship.Prelude.Text.{Text, text_eq, text_eq_iff}
use deltaship.Db.Table.{update_where, delete_where, Unique}
use deltaship.Db.Models.{blake3_hash_size, sha256_hash_size}
use deltaship.Db.Models.JobStatus.{DiffJobStatus, pending, running, completed, failed}
use deltaship.Db.Publisher.{
  DbBinary, DbVersion, DbDiffJob, PublisherDb, has_binary_id, same_binary_id, same_binary_name,
  has_version_id, same_version_id, same_version_string,
}
use deltaship.Db.Publisher.Jobs.{same_job_id, same_job_key}

-- The binary of a version.
unfoldable pub owner : List DbVersion → Text → Option Text
owner [] id = none
owner (v ∷ vs) id = if text_eq v.version_id id then some v.binary_id else owner vs id

-- Both versions of a job are there, and belong to one binary.
abbrev pub JoinsVersions : List DbVersion → DbDiffJob → Type 0
JoinsVersions vs j =
    (binary : Text) × (owner vs j.from_version_id ≡ some binary)
    × (owner vs j.to_version_id ≡ some binary)

abbrev pub HasBinary : List DbBinary → DbVersion → Type 0
HasBinary bs v = any (has_binary_id v.binary_id) bs ≡ true

-- The sizes of the hashes, and the CHECK constraint: published rows, and only they, have a date.
abbrev pub IsVersionRow : DbVersion → Type 0
IsVersionRow v =
    (length v.file_hash_blake3 ≡ blake3_hash_size)
    × (length v.file_hash_sha256 ≡ sha256_hash_size)
    × (v.is_published ≡ (elim v.published_at [ none ↦ false | some _ ↦ true ]))

-- What a job of each status has recorded.
abbrev pub IsJobRow : DiffJobStatus → DbDiffJob → Type 0
IsJobRow pending j = j.started_at ≡ none
IsJobRow running j = (t : ℕ) × (j.started_at ≡ some t)
IsJobRow completed j =
    (path : Text) × (hash : List ℕ) × (j.diff_path ≡ some path)
    × (j.diff_hash_blake3 ≡ some hash)
    × (length hash ≡ blake3_hash_size)
IsJobRow failed j = (message : Text) × (j.error_message ≡ some message)

pub record IsConsistent (db : PublisherDb) : Type 0 where
  pub binary_ids : Unique same_binary_id db.binaries
  pub binary_names : Unique same_binary_name db.binaries
  pub version_ids : Unique same_version_id db.versions
  pub version_strings : Unique same_version_string db.versions
  pub job_ids : Unique same_job_id db.diff_jobs
  pub job_keys : Unique same_job_key db.diff_jobs
  pub versions_belong : All (HasBinary db.binaries) db.versions
  pub versions_valid : All IsVersionRow db.versions
  pub jobs_join : All (JoinsVersions db.versions) db.diff_jobs
  pub jobs_valid : All (λ j. IsJobRow j.status j) db.diff_jobs

pub owner-find :
    (vs : List DbVersion) (id : Text) {v : DbVersion}
    → find (has_version_id id) vs ≡ some v
    → owner vs id ≡ some v.binary_id
unfolding owner
owner-find [] id h = absurd (cc)
owner-find (w ∷ vs) id {v} h = ground (arith, owner-find vs id {v = v})

pub owner-update_where :
    (p : DbVersion → Bool) (f : DbVersion → DbVersion)
    → ((v : DbVersion) → (f v).version_id ≡ v.version_id)
    → ((v : DbVersion) → (f v).binary_id ≡ v.binary_id)
    → (vs : List DbVersion) (id : Text) → owner (update_where p f vs) id ≡ owner vs id
unfolding owner update_where
owner-update_where p f same_id same_binary [] id = refl
owner-update_where p f same_id same_binary (v ∷ vs) id =
    ground (arith, same_id v, same_binary v, owner-update_where p f same_id same_binary vs id)

-- A row with a new identifier hides no other.
pub owner-cons :
    (row : DbVersion) (vs : List DbVersion) (id : Text) {binary : Text}
    → any (same_version_id row) vs ≡ false
    → owner vs id ≡ some binary
    → owner (row ∷ vs) id ≡ some binary
unfolding owner
owner-cons row [] id h e = absurd (cc)
owner-cons row (v ∷ vs) id {binary} h e = ground (
  arith,
  text_eq_iff row.version_id id,
  text_eq_iff v.version_id id,
  text_eq_iff v.version_id row.version_id,
  owner-cons row vs id {binary = binary},
)

pub owner-delete_where :
    (deleted : Text) (vs : List DbVersion) (id : Text)
    → text_eq id deleted ≡ false
    → owner (delete_where (has_version_id deleted) vs) id ≡ owner vs id
unfolding owner delete_where
owner-delete_where deleted [] id h = refl
owner-delete_where deleted (v ∷ vs) id h = ground (
  arith,
  text_eq_iff v.version_id id,
  text_eq_iff v.version_id deleted,
  text_eq_iff id deleted,
  owner-delete_where deleted vs id,
)
