-- ===== src/Db/Publisher/Preserves.antt =====
-- crates/deltaship-db/src/publisher.rs: every operation on binaries and versions keeps the database
-- consistent.
use deltaship.Prelude.{
  subst, ◌∙◌, ℕ, ◌≡◌, refl, Bool, true, false, not, Option, List, arith, any, length, All-mono,
  ◌==◌, ==_iff, ap,
}
use deltaship.Prelude.Text.{Text}
use deltaship.Prelude.Int.{ℤ}
use deltaship.Prelude.Result.{ok, ensure, ok_or, >>=-eq-ok, ensure-eq-ok, ok_or-eq-ok, ok_injective}
use deltaship.Core.Version.{Semver, Version}
use deltaship.Db.{not_found, invalid_data, unique_violation, foreign_key_violation}
use deltaship.Db.Table.{update_some-eq-some, update_some, update_where-Unique, All-update_where}
use deltaship.Db.Models.{
  validate_platform, normalize_version_string, validate_hash_size, blake3_hash_size,
  sha256_hash_size,
}
use deltaship.Db.Publisher.{
  DbVersion, PublisherDb, NewBinary, NewVersion, new_binary, new_version, has_binary_id,
  same_binary_id, same_binary_name, has_version_id, same_version_id, same_version_string,
  insert_binary, insert_version, update_version, set_version_signature, set_version_published,
  set_version_unpublished, update_version_hashes,
}
use deltaship.Db.Publisher.Invariant.{
  JoinsVersions, HasBinary, IsVersionRow, IsConsistent, owner-update_where, owner-cons,
}

pub not-true : (b : Bool) → not b ≡ true → b ≡ false
not-true b h = ground arith

pub validate_hash_size-ok :
    (hash : List ℕ) (size : ℕ) {u : Unit {0}}
    → validate_hash_size hash size ≡ ok u
    → length hash ≡ size
unfolding validate_hash_size
validate_hash_size-ok hash size h = (==_iff _ _).0 (ensure-eq-ok (length hash == size) _ h)

module _ {db : PublisherDb} (I : IsConsistent db) where
  -- A statement that keeps the keys of the versions, and the checks on a row.
  update_version-IsConsistent :
      (id : Text) (set : DbVersion → DbVersion)
      → ((v : DbVersion) → (set v).version_id ≡ v.version_id)
      → ((v : DbVersion) → (set v).binary_id ≡ v.binary_id)
      → ((v : DbVersion) → (set v).version_string ≡ v.version_string)
      → ((v : DbVersion) → IsVersionRow v → IsVersionRow (set v))
      → {db' : PublisherDb} → update_version id set db ≡ ok db'
      → IsConsistent db'
  unfolding update_version
  update_version-IsConsistent id set same_id same_binary same_string valid {db'} h =
      let p = has_version_id id in
      let (vs, found, e) = >>=-eq-ok (ok_or (update_some p set db.versions) not_found) _ h in
      let here = update_some-eq-some p set db.versions (ok_or-eq-ok _ _ found) in
      subst IsConsistent (ap (λ vs. record db { versions = vs }) here ∙ ok_injective e) record {
        binary_ids = I.binary_ids;
        binary_names = I.binary_names;
        version_ids =
            update_where-Unique p set same_version_id (λ v w. ground (arith, same_id v))
              (λ v w. ground (arith, same_id w)) db.versions I.version_ids;
        version_strings =
            update_where-Unique p set same_version_string
              (λ v w. ground (arith, same_binary v, same_string v))
              (λ v w. ground (arith, same_binary w, same_string w)) db.versions I.version_strings;
        job_ids = I.job_ids;
        job_keys = I.job_keys;
        versions_belong =
            All-update_where p set (HasBinary db.binaries)
              (λ v _ belongs. rw (same_binary v) belongs) db.versions I.versions_belong;
        versions_valid =
            All-update_where p set IsVersionRow (λ v _. valid v) db.versions I.versions_valid;
        jobs_join =
            All-mono (JoinsVersions db.versions) _
              (λ j (binary, from, to). (
                binary,
                owner-update_where p set same_id same_binary db.versions j.from_version_id ∙ from,
                owner-update_where p set same_id same_binary db.versions j.to_version_id ∙ to,
              ))
              db.diff_jobs I.jobs_join;
        jobs_valid = I.jobs_valid;
      }

  pub set_version_signature-IsConsistent :
      (id : Text) (signature : List ℕ) (timestamp : Text) {db' : PublisherDb}
      → set_version_signature id signature timestamp db ≡ ok db'
      → IsConsistent db'
  unfolding set_version_signature
  set_version_signature-IsConsistent id signature timestamp h =
      update_version-IsConsistent id _ (λ v. refl) (λ v. refl) (λ v. refl) (λ v ok. ok) h

  pub set_version_published-IsConsistent :
      (id : Text) (now : ℕ) {db' : PublisherDb}
      → set_version_published id now db ≡ ok db'
      → IsConsistent db'
  unfolding set_version_published
  set_version_published-IsConsistent id now h =
      update_version-IsConsistent id _ (λ v. refl) (λ v. refl) (λ v. refl)
        (λ v ok. (ok.0, ok.1, refl)) h

  pub set_version_unpublished-IsConsistent :
      (id : Text) {db' : PublisherDb} → set_version_unpublished id db ≡ ok db' → IsConsistent db'
  unfolding set_version_unpublished
  set_version_unpublished-IsConsistent id h =
      update_version-IsConsistent id _ (λ v. refl) (λ v. refl) (λ v. refl)
        (λ v ok. (ok.0, ok.1, refl)) h

  pub update_version_hashes-IsConsistent :
      (id : Text) (blake3 sha256 : List ℕ) (size : ℤ) {db' : PublisherDb}
      → update_version_hashes id blake3 sha256 size db ≡ ok db'
      → IsConsistent db'
  unfolding update_version_hashes
  update_version_hashes-IsConsistent id blake3 sha256 size h =
      let (_, b, h1) = >>=-eq-ok (validate_hash_size blake3 blake3_hash_size) _ h in
      let (_, s, h2) = >>=-eq-ok (validate_hash_size sha256 sha256_hash_size) _ h1 in
      update_version-IsConsistent id _ (λ v. refl) (λ v. refl) (λ v. refl)
        (λ v ok. (validate_hash_size-ok blake3 _ b, validate_hash_size-ok sha256 _ s, ok.2)) h2

  pub insert_binary-IsConsistent :
      (canonicalize : Text → Option Text) (is_readable_file : Text → Bool) (id : Text)
      (binary : NewBinary) {db' : PublisherDb}
      → insert_binary canonicalize is_readable_file id binary db ≡ ok db'
      → IsConsistent db'
  unfolding insert_binary
  insert_binary-IsConsistent canonicalize is_readable_file id binary h =
      let (_, _, h1) = >>=-eq-ok (validate_platform binary.platform) _ h in
      let (path, _, h2) = >>=-eq-ok (ok_or (canonicalize binary.binary_path) invalid_data) _ h1 in
      let (_, _, h3) = >>=-eq-ok (ensure (is_readable_file path) invalid_data) _ h2 in
      let row = new_binary id binary path in
      let ids = any (same_binary_id row) db.binaries in
      let names = any (same_binary_name row) db.binaries in
      let (_, new_id, h4) = >>=-eq-ok (ensure (not ids) unique_violation) _ h3 in
      let (_, new_name, h5) = >>=-eq-ok (ensure (not names) unique_violation) _ h4 in
      subst IsConsistent (ok_injective h5) record {
        binary_ids = (not-true ids (ensure-eq-ok (not ids) _ new_id), I.binary_ids);
        binary_names = (not-true names (ensure-eq-ok (not names) _ new_name), I.binary_names);
        version_ids = I.version_ids;
        version_strings = I.version_strings;
        job_ids = I.job_ids;
        job_keys = I.job_keys;
        versions_belong =
            All-mono (HasBinary db.binaries) _ (λ v belongs. ground arith) db.versions
              I.versions_belong;
        versions_valid = I.versions_valid;
        jobs_join = I.jobs_join;
        jobs_valid = I.jobs_valid;
      }

  pub insert_version-IsConsistent :
      {S : Semver} (parse : Text → Option (Version S)) (id : Text) (version : NewVersion)
      {db' : PublisherDb}
      → insert_version parse id version db ≡ ok db'
      → IsConsistent db'
  unfolding insert_version
  insert_version-IsConsistent parse id version h =
      let (_, b, h1) = >>=-eq-ok (validate_hash_size version.file_hash_blake3 _) _ h in
      let (_, s, h2) = >>=-eq-ok (validate_hash_size version.file_hash_sha256 _) _ h1 in
      let (normal, _, h3) =
        >>=-eq-ok (normalize_version_string parse version.version_string) _ h2 in
      let row = new_version id version normal in
      let ids = any (same_version_id row) db.versions in
      let strings = any (same_version_string row) db.versions in
      let (_, new_id, h4) = >>=-eq-ok (ensure (not ids) unique_violation) _ h3 in
      let (_, new_string, h5) = >>=-eq-ok (ensure (not strings) unique_violation) _ h4 in
      let belongs = any (has_binary_id version.binary_id) db.binaries in
      let (_, known, h6) = >>=-eq-ok (ensure belongs foreign_key_violation) _ h5 in
      let fresh = not-true ids (ensure-eq-ok (not ids) _ new_id) in
      subst IsConsistent (ok_injective h6) record {
        binary_ids = I.binary_ids;
        binary_names = I.binary_names;
        version_ids = (fresh, I.version_ids);
        version_strings =
            (not-true strings (ensure-eq-ok (not strings) _ new_string), I.version_strings);
        job_ids = I.job_ids;
        job_keys = I.job_keys;
        versions_belong = (ensure-eq-ok belongs _ known, I.versions_belong);
        versions_valid = (
          (
            validate_hash_size-ok version.file_hash_blake3 _ b,
            validate_hash_size-ok version.file_hash_sha256 _ s,
            refl,
          ),
          I.versions_valid,
        );
        jobs_join =
            All-mono (JoinsVersions db.versions) _
              (λ j (binary, from, to). (
                binary,
                owner-cons row db.versions j.from_version_id fresh from,
                owner-cons row db.versions j.to_version_id fresh to,
              ))
              db.diff_jobs I.jobs_join;
        jobs_valid = I.jobs_valid;
      }
