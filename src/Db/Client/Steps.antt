-- ===== src/Db/Client/Steps.antt =====
-- crates/deltaship-db/src/client.rs: every operation keeps the client's database consistent.
use mathlib.Core.Option.{some-injective}
use deltaship.Prelude.{
  ℕ, ◌≡◌, refl, sym, subst, ap, ◌∙◌, Bool, true, false, not, Option, none, some, List, arith, any,
  All-mono, inl, inr, Bool-cases, Option-cases,
}
use deltaship.Prelude.Text.{Text, text_eq, text_eq-eq}
use deltaship.Prelude.Int.{ℤ}
use deltaship.Prelude.Result.{ok, ensure, ok_or, >>=-eq-ok, ensure-eq-ok, ok_or-eq-ok, ok_injective}
use deltaship.Core.Version.{Semver, Version}
use deltaship.Db.{not_found, invalid_data, unique_violation, foreign_key_violation}
use deltaship.Db.Table.{
  update_some-eq-some, update_some-found, update_where, update_some, any-update_where,
  update_where-Unique, All-update_where,
}
use deltaship.Db.Models.{normalize_version_string, validate_hash_size}
use deltaship.Db.Publisher.Preserves.{not-true, validate_hash_size-ok}
use deltaship.Db.Client.{
  ClientDb, DbManagedBinary, DbInstalledVersion, is_binary, same_id, same_name, is_installed,
  same_installed, is_positive, update_current_version, record_installed_version,
}
use deltaship.Db.Client.Invariant.{
  current_of, NamesInstalled, IsKnown, IsInstalledRow, IsConsistent, current_of-other,
  current_of-set, current_of-installed,
}
use deltaship.Db.Client.Current.{
  clear, mark, of_binary, cleared, marked, name_current, agree_after, any-marked,
}

-- A version that is not installed is no binary's current version.
not_current :
    {db : ClientDb}
    → IsConsistent db
    → (id v : Text) → any (is_installed id v) db.installed_versions ≡ false
    → false ≡ (elim (current_of db.managed_binaries id) [ none ↦ false | some w ↦ text_eq v w ])
not_current {db} I id v fresh = elim (Option-cases (current_of db.managed_binaries id)) [
  | inl nothing ↦ rw nothing refl
  | inr (w, current) ↦
      let present =
        current_of-installed db.installed_versions db.managed_binaries id w I.named current in
      elim (Bool-cases (text_eq v w)) [
        | inl same ↦ absurd (cc (rw (text_eq-eq v w same) at fresh))
        | inr apart ↦ rw current (sym apart)
      ]
]

module _ {db : ClientDb} (I : IsConsistent db) where
  -- What the statements of a successful transaction found, and left.
  found_current :
      (now id v string : Text) {db' : ClientDb}
      → update_current_version now id v string db ≡ ok db'
      → (any (is_binary id) db.managed_binaries ≡ true)
        × (any (is_installed id v) db.installed_versions ≡ true)
        × (record db {
          managed_binaries =
              update_where (is_binary id) (name_current now v string) db.managed_binaries;
          installed_versions = marked id v db.installed_versions;
        }
            ≡ db')
  unfolding update_current_version
  found_current now id v string h =
      let set = name_current now v string in
      let rows = cleared id db.installed_versions in
      let (_, b, h1) =
        >>=-eq-ok (ok_or (update_some (is_binary id) set db.managed_binaries) not_found) _ h in
      let (_, r, h2) =
        >>=-eq-ok (ok_or (update_some (is_installed id v) mark rows) not_found) _ h1 in
      let bs = ok_or-eq-ok _ _ b in
      let rs = ok_or-eq-ok _ _ r in
      (
        update_some-found (is_binary id) set db.managed_binaries bs,
        sym (
              any-update_where (of_binary id) clear (is_installed id v) (λ _. refl)
                db.installed_versions)
            ∙ update_some-found (is_installed id v) mark rows rs,
        rw
            (
              update_some-eq-some (is_binary id) set db.managed_binaries bs,
              update_some-eq-some (is_installed id v) mark rows rs,
            )
            (ok_injective h2),
      )

  IsKnown-after :
      (id : Text) (set : DbManagedBinary → DbManagedBinary)
      → ((b : DbManagedBinary) → (set b).binary_id ≡ b.binary_id)
      → (other : Text) → IsKnown db.managed_binaries other
      → IsKnown (update_where (is_binary id) set db.managed_binaries) other
  IsKnown-after id set same other h =
      any-update_where (is_binary id) set (is_binary other)
        (λ b. ap (λ (t : Text). text_eq t other) (same b)) db.managed_binaries
      ∙ h

  pub update_current_version-IsConsistent :
      (now id v string : Text) {db' : ClientDb}
      → update_current_version now id v string db ≡ ok db'
      → IsConsistent db'
  update_current_version-IsConsistent now id v string h =
      let (known, present, e) = found_current now id v string h in
      let set = name_current now v string in
      let bs = db.managed_binaries in
      let rs = db.installed_versions in
      let bs' = update_where (is_binary id) set bs in
      let keep = IsKnown-after id set (λ _. refl) in
      let marked_same =
        λ (q : DbInstalledVersion → Bool) (c : (r : DbInstalledVersion) → q (clear r) ≡ q r)
            (m : (r : DbInstalledVersion) → q (mark r) ≡ q r).
          any-marked id v q c m rs in
      subst IsConsistent e record {
        ids = update_where-Unique _ set same_id (λ _ _. refl) (λ _ _. refl) bs I.ids;
        names = update_where-Unique _ set same_name (λ _ _. refl) (λ _ _. refl) bs I.names;
        installed =
            update_where-Unique _ mark same_installed (λ _ _. refl) (λ _ _. refl) (cleared id rs)
              (update_where-Unique _ clear same_installed (λ _ _. refl) (λ _ _. refl) rs
                I.installed);
        agree =
            agree_after bs bs' id v
              (current_of-set id set (λ _. refl) (some v) (λ _. refl) bs known)
              (current_of-other id set (λ _. refl) bs) rs I.agree;
        named =
            All-update_where (is_binary id) set (NamesInstalled (marked id v rs))
              (λ b at_id _ w e.
                subst (λ (x : Text). any (is_installed b.binary_id x) (marked id v rs) ≡ true)
                  (some-injective v w e)
                  (subst (λ (i : Text). any (is_installed i v) (marked id v rs) ≡ true)
                    (sym (text_eq-eq b.binary_id id at_id))
                    (marked_same (is_installed id v) (λ _. refl) (λ _. refl) ∙ present)))
              bs
              (All-mono (NamesInstalled rs) _
                (λ b names w e.
                  marked_same (is_installed b.binary_id w) (λ _. refl) (λ _. refl) ∙ names w e)
                bs I.named);
        rows =
            All-update_where _ mark IsInstalledRow (λ _ _ h. h) (cleared id rs)
              (All-update_where _ clear IsInstalledRow (λ _ _ h. h) rs I.rows);
        versions_belong =
            All-update_where _ mark (λ r. IsKnown bs' r.binary_id) (λ _ _ h. h) (cleared id rs)
              (All-update_where _ clear (λ r. IsKnown bs' r.binary_id) (λ _ _ h. h) rs
                (All-mono _ _ (λ r. keep r.binary_id) rs I.versions_belong));
        updates_belong = All-mono _ _ (λ r. keep r.binary_id) db.update_history I.updates_belong;
        backups_belong =
            All-mono _ _ (λ r k. (keep r.binary_id k.0, k.1)) db.rollback_backups I.backups_belong;
      }

  pub record_installed_version-IsConsistent :
      {S : Semver} (parse : Text → Option (Version S)) (id v string : Text) (blake3 sha256 : List ℕ)
      (size : ℤ) {rowid : ℕ} {db' : ClientDb}
      → record_installed_version parse id v string blake3 sha256 size db ≡ ok (rowid, db')
      → IsConsistent db'
  unfolding record_installed_version
  record_installed_version-IsConsistent parse id v string blake3 sha256 size h =
      let (_, b, h1) = >>=-eq-ok (validate_hash_size blake3 _) _ h in
      let (_, s, h2) = >>=-eq-ok (validate_hash_size sha256 _) _ h1 in
      let (normal, _, h3) = >>=-eq-ok (normalize_version_string parse string) _ h2 in
      let (_, positive, h4) = >>=-eq-ok (ensure (is_positive size) invalid_data) _ h3 in
      let taken = any (is_installed id v) db.installed_versions in
      let known = any (is_binary id) db.managed_binaries in
      let (_, free, h5) = >>=-eq-ok (ensure (not taken) unique_violation) _ h4 in
      let (_, has, h6) = >>=-eq-ok (ensure known foreign_key_violation) _ h5 in
      let fresh = not-true taken (ensure-eq-ok (not taken) _ free) in
      subst IsConsistent (ap (λ (p : ℕ × ClientDb). p.1) (ok_injective h6)) record {
        ids = I.ids;
        names = I.names;
        installed = (fresh, I.installed);
        agree = (not_current I id v fresh, I.agree);
        named =
            All-mono (NamesInstalled db.installed_versions) _
              (λ b names w e. ground (arith, names w e)) db.managed_binaries I.named;
        rows = (
          (
            validate_hash_size-ok blake3 _ b,
            validate_hash_size-ok sha256 _ s,
            ensure-eq-ok (is_positive size) _ positive,
          ),
          I.rows,
        );
        versions_belong = (ensure-eq-ok known _ has, I.versions_belong);
        updates_belong = I.updates_belong;
        backups_belong = I.backups_belong;
      }
