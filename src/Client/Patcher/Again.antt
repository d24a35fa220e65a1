-- ===== src/Client/Patcher/Again.antt =====
-- crates/deltaship-client/src/patcher.rs: an update to a version that was installed before, as after
-- a rollback.
use deltaship.Prelude.{
  ℕ, ◌≡◌, ◌≢◌, refl, ap, ◌∙◌, Bool, true, Option, none, List, any, length, Bool-cases, inl, inr,
}
use deltaship.Prelude.Text.{Text}
use deltaship.Prelude.Result.{Result, ok, err}
use deltaship.Prelude.Int.{pos}
use deltaship.Db.{DbError}
use deltaship.Db.Client.{ClientDb, DbManagedBinary, DbInstalledVersion, UpdateMetrics, is_installed}
use deltaship.Db.Client.History.{NewUpdateRecord, record_update_start, record_update_complete}
use deltaship.Db.Client.Installed.{
  record_update_start-installed, record_update_complete-installed, record_installed_version-taken,
}
use deltaship.Client.Patcher.{
  Env, World, UpdateInfo, UpdateError, finish_query, finish_execute, query, execute, read, write,
  remove, exists, copy, Moment, others_act,
}
use deltaship.Client.Patcher.Execute.{execute_update}
use deltaship.Client.Patcher.Update.{
  update_record, check_space, copy_signature, copy_installed, make_backup, record_success, recover,
  conclude, apply_update,
}
use deltaship.Client.Patcher.Runs.{result, continue-ok}
use deltaship.Client.Patcher.Keeps.{Keeps, chain, if-Keeps, pure}
use deltaship.Client.Patcher.Touched.{execute_update-Keeps}
use deltaship.Client.Patcher.Space.{check_space-Keeps_all}

abbrev installed_rows : World → List DbInstalledVersion
installed_rows w = w.db.installed_versions

finish_query-ok :
    {A : Type 0} (r : Result DbError (A × ClientDb)) (w : World) {a : A}
    → (finish_query r w).0 ≡ ok a
    → (x : A × ClientDb) × (r ≡ ok x)
finish_query-ok (ok x) w h = (x, refl)
finish_query-ok (err e) w h = absurd (cc)

-- An operation that leaves the installed versions alone.
finish_query-keeps :
    {A : Type 0} (r : Result DbError (A × ClientDb)) (w : World)
    → ((x : A × ClientDb) → r ≡ ok x → x.1.installed_versions ≡ w.db.installed_versions)
    → installed_rows (finish_query r w).1 ≡ installed_rows w
finish_query-keeps (ok (a, db)) w same = same (a, db) refl
finish_query-keeps (err e) w same = refl

finish_execute-keeps :
    (r : Result DbError ClientDb) (w : World)
    → ((db : ClientDb) → r ≡ ok db → db.installed_versions ≡ w.db.installed_versions)
    → installed_rows (finish_execute r w).1 ≡ installed_rows w
finish_execute-keeps (ok db) w same = same db refl
finish_execute-keeps (err e) w same = refl

record_update_start-Keeps :
    (now : Text) (update : NewUpdateRecord)
    → Keeps installed_rows (query (record_update_start now update))
record_update_start-Keeps now update = record {
  keep = λ w.
      finish_query-keeps (record_update_start now update w.db) w
        (λ x. record_update_start-installed now update w.db);
}

record_update_complete-Keeps :
    (now : Text) (update_id : ℕ) (success : Bool) (message : Option Text) (metrics : UpdateMetrics)
    → Keeps installed_rows (execute (record_update_complete now update_id success message metrics))
record_update_complete-Keeps now update_id success message metrics = record {
  keep = λ w.
      finish_execute-keeps (record_update_complete now update_id success message metrics w.db) w
        (λ db. record_update_complete-installed now update_id success message metrics w.db);
}

module _ (env : Env) (binary : DbManagedBinary) (update : UpdateInfo) where
  write-Keeps : (path : Text) (content : List ℕ) → Keeps installed_rows (write env path content)
  unfolding write
  write-Keeps path content = record {
    keep = λ w. elim (Bool-cases (env.can_write path)) [
      | inl can ↦ rw can refl
      | inr cannot ↦ rw cannot refl
    ];
  }

  remove-Keeps : (path : Text) → Keeps installed_rows (remove env path)
  unfolding remove
  remove-Keeps path = record { keep = λ w. refl }

  others_act-Keeps : (moment : Moment) → Keeps installed_rows (others_act env moment)
  unfolding others_act
  others_act-Keeps moment = record { keep = λ w. refl }

  execute_update-Keeps_rows : Keeps installed_rows (execute_update env binary update)
  execute_update-Keeps_rows =
      execute_update-Keeps env binary update (λ path content _. write-Keeps path content)
        (λ path _. remove-Keeps path) (λ f. record { keep = λ w. refl }) others_act-Keeps

  check_space-Keeps : Keeps installed_rows (check_space env binary update)
  check_space-Keeps = record {
    keep = λ w. ap installed_rows ((check_space-Keeps_all env binary update).keep w);
  }

  copy-Keeps : (from to : Text) → Keeps installed_rows (copy env from to)
  unfolding copy read
  copy-Keeps from to = chain (pure (λ w. refl)) (write-Keeps to)

  make_backup-Keeps : Keeps installed_rows (make_backup env binary)
  unfolding make_backup copy_installed copy_signature exists
  make_backup-Keeps = chain (pure (λ w. refl)) λ installed.
      if-Keeps installed
        (chain (copy-Keeps _ _) λ _.
          chain
            (chain (pure (λ w. refl)) λ signed. if-Keeps signed (copy-Keeps _ _) (pure (λ w. refl)))
            λ _. pure (λ w. refl))
        (pure (λ w. refl))

  -- The steps after a successful update fail at the second record of the version.
  record_success-taken :
      (update_id : ℕ) (backup : Option Text) (metrics : UpdateMetrics) (w : World) {u : Unit {0}}
      {w' : World}
      → any (is_installed binary.binary_id update.version_id) w.db.installed_versions ≡ true
      → record_success env binary update update_id backup metrics w ≡ (ok u, w')
      → ⊥
  unfolding record_success read
  record_success-taken update_id backup metrics w there h =
      let (_, _, h1) = continue-ok _ _ _ h in
      let (installed, _, h2) = continue-ok _ _ _ h1 in
      let (blake3, _, h3) = continue-ok _ _ _ h2 in
      let (rowid, recorded, _) = continue-ok _ _ _ h3 in
      let v = (execute (record_update_complete env.now update_id true none metrics) w).1 in
      let same = (record_update_complete-Keeps env.now update_id true none metrics).keep w in
      let (r, e) = finish_query-ok _ v recorded in
      record_installed_version-taken env.parse binary.binary_id update.version_id update.version
        blake3 (env.sha256 installed) (pos (length installed)) v.db {r = r}
        (ap (any (is_installed binary.binary_id update.version_id)) same ∙ there) e

  recover-fails :
      (message : UpdateError → Text) (update_id : ℕ) (backup : Option Text) (e : UpdateError)
      (w : World) {u : Unit {0}} {w' : World}
      → recover env message binary update_id backup e w ≡ (ok u, w')
      → ⊥
  unfolding recover
  recover-fails message update_id backup e w h =
      let (_, _, h1) = continue-ok _ _ _ h in
      let (_, _, h2) = continue-ok _ _ _ h1 in
      let (_, _, h3) = continue-ok _ _ _ h2 in cc (ap result h3)

  conclude-taken :
      (message : UpdateError → Text) (update_id : ℕ) (backup : Option Text)
      (r : Result UpdateError UpdateMetrics × World) {u : Unit {0}} {w' : World}
      → any (is_installed binary.binary_id update.version_id) r.1.db.installed_versions ≡ true
      → conclude env message binary update update_id backup r ≡ (ok u, w')
      → ⊥
  unfolding conclude
  conclude-taken message update_id backup (ok metrics, w) there h =
      record_success-taken update_id backup metrics w there h
  conclude-taken message update_id backup (err e, w) there h =
      recover-fails message update_id backup e w h

  -- An update to a version that is already recorded for the binary never succeeds, whatever is
  -- downloaded: such a version is recorded when it is first installed, and stays so after a rollback.
  pub apply_update-again :
      (message : UpdateError → Text) (w : World) {w' : World}
      → any (is_installed binary.binary_id update.version_id) w.db.installed_versions ≡ true
      → apply_update env message binary update w ≢ (ok tt, w')
  unfolding apply_update
  apply_update-again message w there h =
      let (_, _, h1) = continue-ok _ _ _ h in
      let (_, _, h2) = continue-ok _ _ _ h1 in
      let (update_id, _, h3) = continue-ok _ _ _ h2 in
      let (backup, _, h4) = continue-ok _ _ _ h3 in
      let start = record_update_start-Keeps env.now (update_record binary update) in
      let w1 = (check_space env binary update w).1 in
      let w2 = (query (record_update_start env.now (update_record binary update)) w1).1 in
      let w3 = (make_backup env binary w2).1 in
      let same =
        execute_update-Keeps_rows.keep w3
        ∙ make_backup-Keeps.keep w2
        ∙ start.keep w1
        ∙ check_space-Keeps.keep w in
      conclude-taken message update_id backup (execute_update env binary update w3)
        (ap (any (is_installed binary.binary_id update.version_id)) same ∙ there) h4
