-- ===== src/Db/Client/Registration.antt =====
-- crates/deltaship-db/src/client.rs: registering, changing and removing a binary keeps the client's
-- database consistent.
use deltaship.Prelude.{
  Bool-cases, inl, inr, ◌≡◌, refl, sym, subst, ap, ◌∙◌, Bool, false, not, List, [], ◌∷◌, arith, any,
  All-mono, All-and,
}
use deltaship.Prelude.Text.{Text, text_eq, text_eq-eq, text_eq_iff}
use deltaship.Prelude.Result.{ok, ensure, ok_or, >>=-eq-ok, ensure-eq-ok, ok_or-eq-ok, ok_injective}
use deltaship.Db.{not_found, unique_violation}
use deltaship.Db.Table.{
  update_some, delete_where, any-update_where, update_where-Unique, All-update_where,
  delete_where-Unique, update_some-eq-some, any-delete_where, All-delete_where,
}
use deltaship.Db.Models.{validate_platform}
use deltaship.Db.Publisher.Preserves.{not-true}
use deltaship.Db.Client.{
  ClientDb, DbManagedBinary, DbInstalledVersion, NewManagedBinary, is_binary, same_id, same_name,
  is_installed, same_installed, registered, register_binary, update_binary, set_last_check,
  set_auto_update, delete_managed_binary,
}
use deltaship.Db.Client.Invariant.{
  current_of, Agrees, NamesInstalled, IsKnown, IsConsistent, current_of-kept,
}

current_of-new :
    (b : DbManagedBinary) (bs : List DbManagedBinary) (id : Text)
    → any (same_id b) bs ≡ false
    → IsKnown bs id
    → current_of (b ∷ bs) id ≡ current_of bs id
unfolding current_of
current_of-new b bs id fresh known = elim (Bool-cases (text_eq b.binary_id id)) [
  | inl same ↦ absurd (cc (rw (text_eq-eq b.binary_id id same) at fresh))
  | inr apart ↦ rw apart refl
]

current_of-delete_where :
    (bs : List DbManagedBinary) (deleted id : Text)
    → text_eq id deleted ≡ false
    → current_of (delete_where (is_binary deleted) bs) id ≡ current_of bs id
unfolding current_of delete_where
current_of-delete_where [] deleted id h = refl
current_of-delete_where (b ∷ bs) deleted id h = ground (
  arith,
  text_eq_iff b.binary_id deleted,
  text_eq_iff b.binary_id id,
  text_eq_iff id deleted,
  current_of-delete_where bs deleted id,
)

module _ {db : ClientDb} (I : IsConsistent db) where
  pub register_binary-IsConsistent :
      (binary : NewManagedBinary) {db' : ClientDb}
      → register_binary binary db ≡ ok db'
      → IsConsistent db'
  unfolding register_binary
  register_binary-IsConsistent binary h =
      let b = registered binary in
      let bs = db.managed_binaries in
      let (_, _, h1) = >>=-eq-ok (validate_platform binary.platform) _ h in
      let (_, i, h2) = >>=-eq-ok (ensure (not (any (same_id b) bs)) unique_violation) _ h1 in
      let (_, n, h3) = >>=-eq-ok (ensure (not (any (same_name b) bs)) unique_violation) _ h2 in
      let fresh = not-true (any (same_id b) bs) (ensure-eq-ok (not (any (same_id b) bs)) _ i) in
      let known =
        λ (id : Text) (k : IsKnown bs id). let w : IsKnown (b ∷ bs) id = ground arith in w in
      subst IsConsistent (ok_injective h3) record {
        ids = (fresh, I.ids);
        names = (
          not-true (any (same_name b) bs) (ensure-eq-ok (not (any (same_name b) bs)) _ n),
          I.names,
        );
        installed = I.installed;
        agree =
            All-mono (λ r. Agrees bs r × IsKnown bs r.binary_id) _
              (λ r (agrees, k). rw (current_of-new b bs r.binary_id fresh k) agrees)
              db.installed_versions (All-and _ _ db.installed_versions I.agree I.versions_belong);
        named = (λ v e. absurd (cc), I.named);
        rows = I.rows;
        versions_belong =
            All-mono _ _ (λ r. known r.binary_id) db.installed_versions I.versions_belong;
        updates_belong = All-mono _ _ (λ r. known r.binary_id) db.update_history I.updates_belong;
        backups_belong =
            All-mono _ _ (λ r k. (known r.binary_id k.0, k.1)) db.rollback_backups I.backups_belong;
      }

  -- A statement that leaves the names and the current version of a binary alone.
  update_binary-IsConsistent :
      (id : Text) (set : DbManagedBinary → DbManagedBinary)
      → ((b : DbManagedBinary) → (set b).binary_id ≡ b.binary_id)
      → ((b : DbManagedBinary) → (set b).binary_name ≡ b.binary_name)
      → ((b : DbManagedBinary) → (set b).current_version_id ≡ b.current_version_id)
      → {db' : ClientDb} → update_binary id set db ≡ ok db'
      → IsConsistent db'
  unfolding update_binary
  update_binary-IsConsistent id set same_i same_n same_c h =
      let bs = db.managed_binaries in
      let rs = db.installed_versions in
      let p = is_binary id in
      let (_, found, e) = >>=-eq-ok (ok_or (update_some p set bs) not_found) _ h in
      let here = update_some-eq-some p set bs (ok_or-eq-ok _ _ found) in
      let keep = λ (other : Text) (k : IsKnown bs other).
        any-update_where p set (is_binary other)
          (λ b. ap (λ (t : Text). text_eq t other) (same_i b)) bs
        ∙ k in
      subst IsConsistent (ap (λ bs. record db { managed_binaries = bs }) here ∙ ok_injective e)
        record {
          ids =
              update_where-Unique p set same_id (λ b c. ground (arith, same_i b))
                (λ b c. ground (arith, same_i c)) bs I.ids;
          names =
              update_where-Unique p set same_name (λ b c. ground (arith, same_n b))
                (λ b c. ground (arith, same_n c)) bs I.names;
          installed = I.installed;
          agree =
              All-mono (Agrees bs) _
                (λ r agrees. rw (current_of-kept id set same_i same_c bs r.binary_id) agrees) rs
                I.agree;
          named =
              All-update_where p set (NamesInstalled rs)
                (λ b _ names v e. rw (same_i b) (names v (sym (same_c b) ∙ e))) bs I.named;
          rows = I.rows;
          versions_belong = All-mono _ _ (λ r. keep r.binary_id) rs I.versions_belong;
          updates_belong = All-mono _ _ (λ r. keep r.binary_id) db.update_history I.updates_belong;
          backups_belong =
              All-mono _ _ (λ r k. (keep r.binary_id k.0, k.1)) db.rollback_backups
                I.backups_belong;
        }

  pub set_last_check-IsConsistent :
      (now id : Text) {db' : ClientDb} → set_last_check now id db ≡ ok db' → IsConsistent db'
  unfolding set_last_check
  set_last_check-IsConsistent now id =
      update_binary-IsConsistent id _ (λ b. refl) (λ b. refl) (λ b. refl)

  pub set_auto_update-IsConsistent :
      (id : Text) (enabled : Bool) {db' : ClientDb}
      → set_auto_update id enabled db ≡ ok db'
      → IsConsistent db'
  unfolding set_auto_update
  set_auto_update-IsConsistent id enabled =
      update_binary-IsConsistent id _ (λ b. refl) (λ b. refl) (λ b. refl)

  -- A binary that is left is still known.
  IsKnown-without :
      (id other : Text)
      → text_eq other id ≡ false
      → IsKnown db.managed_binaries other
      → IsKnown (delete_where (is_binary id) db.managed_binaries) other
  IsKnown-without id other apart k =
      any-delete_where (is_binary other) (is_binary id)
        (λ b e. rw (text_eq-eq b.binary_id other e) apart) db.managed_binaries
      ∙ k

  pub delete_managed_binary-IsConsistent :
      (id : Text) {db' : ClientDb} → delete_managed_binary id db ≡ ok db' → IsConsistent db'
  unfolding delete_managed_binary
  delete_managed_binary-IsConsistent id h =
      let bs = db.managed_binaries in
      let rs = db.installed_versions in
      let of_id = λ (r : DbInstalledVersion). text_eq r.binary_id id in
      let (_, _, e) = >>=-eq-ok (ensure (any (is_binary id) bs) not_found) _ h in
      subst IsConsistent (ok_injective e) record {
        ids = delete_where-Unique same_id (is_binary id) bs I.ids;
        names = delete_where-Unique same_name (is_binary id) bs I.names;
        installed = delete_where-Unique same_installed of_id rs I.installed;
        agree =
            All-delete_where (Agrees bs) _ of_id
              (λ r apart agrees. rw (current_of-delete_where bs id r.binary_id apart) agrees) rs
              I.agree;
        named =
            All-delete_where (NamesInstalled rs) _ (is_binary id)
              (λ b apart names v e.
                any-delete_where (is_installed b.binary_id v) of_id
                  (λ r found. rw (text_eq-eq r.binary_id b.binary_id (ground arith)) apart) rs
                ∙ names v e)
              bs I.named;
        rows = All-delete_where _ _ of_id (λ r _ k. k) rs I.rows;
        versions_belong =
            All-delete_where _ _ of_id (λ r apart. IsKnown-without id r.binary_id apart) rs
              I.versions_belong;
        updates_belong =
            All-delete_where _ _ _ (λ r apart. IsKnown-without id r.binary_id apart)
              db.update_history I.updates_belong;
        backups_belong =
            All-delete_where _ _ _ (λ r apart k. (IsKnown-without id r.binary_id apart k.0, k.1))
              db.rollback_backups I.backups_belong;
      }
