-- ===== src/Db/Client/Installed.antt =====
-- crates/deltaship-db/src/client.rs: which operations leave the installed versions alone, and what
-- becomes of recording one twice.
use deltaship.Prelude.{ℕ, ◌≡◌, sym, ap, Bool, true, not, List, Option, any, ◌==◌}
use deltaship.Prelude.Text.{Text}
use deltaship.Prelude.Int.{ℤ}
use deltaship.Prelude.Result.{ok, ensure, ok_or, >>=-eq-ok, ensure-eq-ok, ok_injective}
use deltaship.Core.Version.{Semver, Version}
use deltaship.Db.{not_found, invalid_data, unique_violation, foreign_key_violation}
use deltaship.Db.Table.{update_some}
use deltaship.Db.Models.{normalize_version_string, validate_hash_size}
use deltaship.Db.Client.{
  ClientDb, DbUpdateHistory, UpdateMetrics, is_binary, is_installed, is_positive,
  record_installed_version,
}
use deltaship.Db.Client.History.{
  NewUpdateRecord, insert_update, record_update_start, update_update, record_update_complete,
}
use deltaship.Db.Publisher.Preserves.{not-true}

insert_update-installed :
    (row : DbUpdateHistory) (db : ClientDb) {r : ℕ × ClientDb}
    → insert_update row db ≡ ok r
    → r.1.installed_versions ≡ db.installed_versions
unfolding insert_update
insert_update-installed row db h =
    let known = any (is_binary row.binary_id) db.managed_binaries in
    let (_, _, e) = >>=-eq-ok (ensure known foreign_key_violation) _ h in
    ap (λ (r : ℕ × ClientDb). r.1.installed_versions) (sym (ok_injective e))

pub record_update_start-installed :
    (now : Text) (update : NewUpdateRecord) (db : ClientDb) {r : ℕ × ClientDb}
    → record_update_start now update db ≡ ok r
    → r.1.installed_versions ≡ db.installed_versions
unfolding record_update_start
record_update_start-installed now update db = insert_update-installed _ db

update_update-installed :
    (update_id : ℕ) (set : DbUpdateHistory → DbUpdateHistory) (db : ClientDb) {db' : ClientDb}
    → update_update update_id set db ≡ ok db'
    → db'.installed_versions ≡ db.installed_versions
unfolding update_update
update_update-installed update_id set db h =
    let p = λ (r : DbUpdateHistory). r.update_id == update_id in
    let (_, _, e) = >>=-eq-ok (ok_or (update_some p set db.update_history) not_found) _ h in
    ap (λ (d : ClientDb). d.installed_versions) (sym (ok_injective e))

pub record_update_complete-installed :
    (now : Text) (update_id : ℕ) (success : Bool) (message : Option Text) (metrics : UpdateMetrics)
    (db : ClientDb) {db' : ClientDb}
    → record_update_complete now update_id success message metrics db ≡ ok db'
    → db'.installed_versions ≡ db.installed_versions
unfolding record_update_complete
record_update_complete-installed now update_id success message metrics db =
    update_update-installed update_id _ db

-- A version that is recorded for a binary cannot be recorded for it again.
pub record_installed_version-taken :
    {S : Semver} (parse : Text → Option (Version S)) (id v string : Text) (blake3 sha256 : List ℕ)
    (size : ℤ) (db : ClientDb) {r : ℕ × ClientDb}
    → any (is_installed id v) db.installed_versions ≡ true
    → record_installed_version parse id v string blake3 sha256 size db ≡ ok r
    → ⊥
unfolding record_installed_version
record_installed_version-taken parse id v string blake3 sha256 size db there h =
    let (_, _, h1) = >>=-eq-ok (validate_hash_size blake3 _) _ h in
    let (_, _, h2) = >>=-eq-ok (validate_hash_size sha256 _) _ h1 in
    let (_, _, h3) = >>=-eq-ok (normalize_version_string parse string) _ h2 in
    let (_, _, h4) = >>=-eq-ok (ensure (is_positive size) invalid_data) _ h3 in
    let taken = any (is_installed id v) db.installed_versions in
    let (_, free, _) = >>=-eq-ok (ensure (not taken) unique_violation) _ h4 in
    let fresh = not-true taken (ensure-eq-ok (not taken) _ free) in cc
