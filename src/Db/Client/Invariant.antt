-- ===== src/Db/Client/Invariant.antt =====
-- crates/deltaship-db/src/schema.rs: the constraints of the client's tables, and how the current
-- version of a binary and the flags of its installed versions agree.
use deltaship.Prelude.{
  Bool-cases, subst, inl, inr, ◌≡◌, refl, true, false, Option, none, some, List, [], ◌∷◌, arith,
  any, length, All, if◌then◌else◌,
}
use deltaship.Prelude.Text.{Text, text_eq, text_eq_iff, text_eq-eq}
use deltaship.Db.Table.{update_where, Unique}
use deltaship.Db.Models.{blake3_hash_size, sha256_hash_size}
use deltaship.Db.Client.{
  ClientDb, DbManagedBinary, DbInstalledVersion, DbRollbackBackup, is_binary, same_id, same_name,
  is_installed, same_installed, is_positive,
}

-- The current version that a binary's row names.
unfoldable pub current_of : List DbManagedBinary → Text → Option Text
current_of [] id = none
current_of (b ∷ bs) id = if text_eq b.binary_id id then b.current_version_id else current_of bs id

-- The flag of an installed version is set exactly if its binary's row names it.
abbrev pub Agrees : List DbManagedBinary → DbInstalledVersion → Type 0
Agrees bs r =
    r.is_current
    ≡ (elim (current_of bs r.binary_id) [ none ↦ false | some v ↦ text_eq r.version_id v ])

-- The version that a binary's row names is installed.
abbrev pub NamesInstalled : List DbInstalledVersion → DbManagedBinary → Type 0
NamesInstalled rs b =
    (v : Text) → b.current_version_id ≡ some v → any (is_installed b.binary_id v) rs ≡ true

abbrev pub IsKnown : List DbManagedBinary → Text → Type 0
IsKnown bs id = any (is_binary id) bs ≡ true

abbrev pub IsInstalledRow : DbInstalledVersion → Type 0
IsInstalledRow r =
    (length r.file_hash_blake3 ≡ blake3_hash_size)
    × (length r.file_hash_sha256 ≡ sha256_hash_size)
    × (is_positive r.file_size_bytes ≡ true)

-- A backup has its binary, and a hash of the right size.
abbrev pub IsBackupRow : List DbManagedBinary → DbRollbackBackup → Type 0
IsBackupRow bs r = IsKnown bs r.binary_id × (length r.backup_hash_blake3 ≡ blake3_hash_size)

pub record IsConsistent (db : ClientDb) : Type 0 where
  pub ids : Unique same_id db.managed_binaries
  pub names : Unique same_name db.managed_binaries
  pub installed : Unique same_installed db.installed_versions
  pub agree : All (Agrees db.managed_binaries) db.installed_versions
  pub named : All (NamesInstalled db.installed_versions) db.managed_binaries
  pub rows : All IsInstalledRow db.installed_versions
  pub versions_belong : All (λ r. IsKnown db.managed_binaries r.binary_id) db.installed_versions
  pub updates_belong : All (λ r. IsKnown db.managed_binaries r.binary_id) db.update_history
  pub backups_belong : All (IsBackupRow db.managed_binaries) db.rollback_backups

pub current_of-unknown :
    (bs : List DbManagedBinary) (id : Text)
    → any (is_binary id) bs ≡ false
    → current_of bs id ≡ none
unfolding current_of
current_of-unknown [] id h = refl
current_of-unknown (b ∷ bs) id h = ground (arith, current_of-unknown bs id)

-- Where a binary's row names a version, that version is installed.
pub current_of-installed :
    (rs : List DbInstalledVersion) (bs : List DbManagedBinary) (id v : Text)
    → All (NamesInstalled rs) bs
    → current_of bs id ≡ some v
    → any (is_installed id v) rs ≡ true
unfolding current_of
current_of-installed rs [] id v h e = absurd (cc)
current_of-installed rs (b ∷ bs) id v h e = elim (Bool-cases (text_eq b.binary_id id)) [
  | inl here ↦
      subst (λ (i : Text). any (is_installed i v) rs ≡ true) (text_eq-eq b.binary_id id here)
        (h.0 v (rw here at e))
  | inr there ↦ current_of-installed rs bs id v h.1 (rw there at e)
]

-- An update of one binary's row, which keeps the identifier.
module _ (id : Text) (set : DbManagedBinary → DbManagedBinary)
    (same : (b : DbManagedBinary) → (set b).binary_id ≡ b.binary_id) where
  pub current_of-other :
      (bs : List DbManagedBinary) (other : Text)
      → text_eq id other ≡ false
      → current_of (update_where (is_binary id) set bs) other ≡ current_of bs other
  unfolding current_of update_where
  current_of-other [] other h = refl
  current_of-other (b ∷ bs) other h = ground (
    arith,
    same b,
    text_eq_iff b.binary_id id,
    text_eq_iff b.binary_id other,
    text_eq_iff id other,
    current_of-other bs other h,
  )

  pub current_of-set :
      (v : Option Text)
      → ((b : DbManagedBinary) → (set b).current_version_id ≡ v)
      → (bs : List DbManagedBinary) → any (is_binary id) bs ≡ true
      → current_of (update_where (is_binary id) set bs) id ≡ v
  unfolding current_of update_where
  current_of-set v current [] h = absurd (cc)
  current_of-set v current (b ∷ bs) h =
      ground (arith, same b, current b, current_of-set v current bs)

  -- Where the update leaves the current version alone.
  pub current_of-kept :
      ((b : DbManagedBinary) → (set b).current_version_id ≡ b.current_version_id)
      → (bs : List DbManagedBinary) (other : Text)
      → current_of (update_where (is_binary id) set bs) other ≡ current_of bs other
  unfolding current_of update_where
  current_of-kept keeps [] other = refl
  current_of-kept keeps (b ∷ bs) other =
      ground (arith, same b, keeps b, current_of-kept keeps bs other)
