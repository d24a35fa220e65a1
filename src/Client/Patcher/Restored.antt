-- ===== src/Client/Patcher/Restored.antt =====
-- crates/deltaship-client/src/patcher.rs: a failed update puts the old file back.
use deltaship.Prelude.{
  ℕ, ◌≡◌, refl, sym, ap, ◌∙◌, Bool, true, false, Option, none, some, List, Bool-cases, inl, inr,
  if◌then◌else◌,
}
use deltaship.Prelude.Text.{Text, text_eq, text_eq_refl}
use deltaship.Prelude.Map
use deltaship.Prelude.Map.{Map, get-insert, get-remove, contains_key-get}
use deltaship.Prelude.Result
use deltaship.Prelude.Result.{Result, ok, err}
use deltaship.Db.{DbError}
use deltaship.Db.Client.{ClientDb, DbManagedBinary, UpdateMetrics}
use deltaship.Client.Patcher.{
  Env, World, UpdateInfo, UpdateError, continue, execute, query, finish_query, finish_execute,
  exists, read, write, remove, copy, sig_path_for,
}
use deltaship.Client.Patcher.Update.{
  backup_path, copy_signature, copy_installed, insert_backup, record_backup, record_success,
  make_backup, restore, recover,
}
use deltaship.Client.Patcher.Runs.{result, state, continue-ok, write-ok, sig_path_apart}
use deltaship.Client.Patcher.Keeps.{Keeps, continue-keep, chain, if-Keeps, pure}

-- The content of the file at a path.
abbrev pub content_at : Text → World → Option (List ℕ)
content_at path w = Map.get path w.files

-- Steps on another file keep the content.
pub write-Keeps_content :
    (env : Env) (at path : Text) (content : List ℕ)
    → text_eq path at ≡ false
    → Keeps (content_at at) (write env path content)
unfolding write
write-Keeps_content env at path content apart = record {
  keep = λ w. elim (Bool-cases (env.can_write path)) [
    | inl can ↦ rw can (get-insert path at content w.files ∙ rw apart refl)
    | inr cannot ↦ rw cannot refl
  ];
}

pub remove-Keeps_content :
    (env : Env) (at path : Text) → text_eq path at ≡ false → Keeps (content_at at) (remove env path)
unfolding remove
remove-Keeps_content env at path apart = record {
  keep = λ w. get-remove path at w.files ∙ rw apart refl;
}

pub execute-Keeps_content :
    (at : Text) (f : ClientDb → Result DbError ClientDb) → Keeps (content_at at) (execute f)
execute-Keeps_content at f = record { keep = λ w. finished (f w.db) w }
  where
    finished :
        (r : Result DbError ClientDb) (w : World)
        → content_at at (finish_execute r w).1 ≡ content_at at w
    finished (ok db) w = refl
    finished (err e) w = refl

pub query-Keeps_content :
    {A : Type 0} (at : Text) (f : ClientDb → Result DbError (A × ClientDb))
    → Keeps (content_at at) (query f)
query-Keeps_content {A} at f = record { keep = λ w. finished (f w.db) w }
  where
    finished :
        (r : Result DbError (A × ClientDb)) (w : World)
        → content_at at (finish_query r w).1 ≡ content_at at w
    finished (ok (a, db)) w = refl
    finished (err e) w = refl

module _ (env : Env) (binary : DbManagedBinary) (update : UpdateInfo) where
  -- The signature of a backup is another file.
  copy_signature-Keeps_content :
      (at : Text)
      → text_eq (sig_path_for (backup_path env binary)) at ≡ false
      → Keeps (content_at at) (copy_signature env binary)
  unfolding copy_signature exists copy read
  copy_signature-Keeps_content at apart = chain (pure (λ w. refl)) λ signed.
      if-Keeps signed
        (chain (pure (λ w. refl))
          λ sig. write-Keeps_content env at (sig_path_for (backup_path env binary)) sig apart)
        (pure (λ w. refl))

  -- A backup that is made holds what is installed.
  pub make_backup-content :
      (w : World) (content : List ℕ)
      → content_at binary.install_path w ≡ some content
      → {backup : Option Text} {w' : World} → make_backup env binary w ≡ (ok backup, w')
      → (backup ≡ some (backup_path env binary))
        × (content_at (backup_path env binary) w' ≡ some content)
  unfolding make_backup copy_installed exists copy read
  make_backup-content w content there h =
      let path = backup_path env binary in
      let (installed, is_there, h1) = continue-ok _ _ _ h in
      let present : Map.contains_key binary.install_path w.files ≡ true =
        contains_key-get binary.install_path w.files ∙ rw there refl in
      let yes_there : true ≡ installed = sym present ∙ Result.ok_injective is_there in
      copied installed yes_there h1
    where
      copied :
          (installed : Bool)
          → true ≡ installed
          → {backup : Option Text} {w' : World}
          → (if installed then copy_installed env binary else (λ v. (ok none, v))) w
            ≡ (ok backup, w')
          → (backup ≡ some (backup_path env binary))
            × (content_at (backup_path env binary) w' ≡ some content)
      copied true e h1 =
          let path = backup_path env binary in
          let (_, duplicated, h2) = continue-ok _ _ _ h1 in
          let (_, _, h3) = continue-ok _ _ _ h2 in
          let v = (copy env binary.install_path path w).1 in
          let (old, was, h4) =
            continue-ok _ _ _ (ap (λ (r : Result UpdateError (Unit {0})). (r, v)) duplicated) in
          let same : old ≡ content = Result.ok_injective (sym was ∙ rw there refl) in
          let held : content_at path v ≡ some content =
            ap (content_at path) (sym (write-ok env path old w h4))
            ∙ get-insert path path old w.files
            ∙ rw (text_eq_refl path, same) refl in
          (
            sym (Result.ok_injective (ap result h3)),
            ap (content_at path) (sym (ap state h3))
                ∙ ((copy_signature-Keeps_content path (sig_path_apart path)).keep v ∙ held),
          )
      copied false e h1 = absurd (cc)

  -- The backup is copied over the installed file.
  restore-content :
      (w : World) (content : List ℕ)
      → env.can_write binary.install_path ≡ true
      → content_at (backup_path env binary) w ≡ some content
      → content_at binary.install_path (restore env binary (some (backup_path env binary)) w).1
        ≡ some content
  unfolding restore exists copy read write continue
  restore-content w content can held =
      let path = backup_path env binary in
      let present : Map.contains_key path w.files ≡ true =
        contains_key-get path w.files ∙ rw held refl in
      rw (present, restore, held, can)
        (get-insert binary.install_path binary.install_path content w.files
          ∙ rw (text_eq_refl binary.install_path) refl)

  pub recover-content :
      (message : UpdateError → Text) (update_id : ℕ) (e : UpdateError) (w : World)
      (content : List ℕ)
      → env.can_write binary.install_path ≡ true
      → content_at (backup_path env binary) w ≡ some content
      → content_at binary.install_path
          (recover env message binary update_id (some (backup_path env binary)) e w).1
        ≡ some content
  unfolding recover
  recover-content message update_id e w content can held =
      let backup = some (backup_path env binary) in
      continue-keep (restore env binary backup w).0 _ (restore env binary backup w).1 (λ restored _.
        chain (execute-Keeps_content binary.install_path _)
          λ _. chain (pure (λ v. refl)) (λ _. pure (λ v. refl)))
      ∙ restore-content w content can held

  -- The records of a success leave the files alone.
  record_backup-Keeps_content :
      (at : Text) (backup id string : Option Text)
      → Keeps (content_at at) (record_backup env binary backup id string)
  unfolding record_backup insert_backup exists read
  record_backup-Keeps_content at (some path) (some id) (some string) =
      chain (pure (λ w. refl)) λ there.
        if-Keeps there
          (chain (pure (λ w. refl))
            λ content. chain (query-Keeps_content at _) (λ _. pure (λ w. refl)))
          (pure (λ w. refl))
  record_backup-Keeps_content at none id string = pure (λ w. refl)
  record_backup-Keeps_content at (some path) none string = pure (λ w. refl)
  record_backup-Keeps_content at (some path) (some id) none = pure (λ w. refl)

  pub record_success-Keeps_content :
      (at : Text) (update_id : ℕ) (backup : Option Text) (metrics : UpdateMetrics)
      → Keeps (content_at at) (record_success env binary update update_id backup metrics)
  unfolding record_success read
  record_success-Keeps_content at update_id backup metrics = chain (execute-Keeps_content at _) λ _.
      chain (pure (λ w. refl)) λ installed. chain (pure (λ w. refl)) λ blake3.
        chain (query-Keeps_content at _)
          λ _. chain (execute-Keeps_content at _) λ _. record_backup-Keeps_content at backup _ _

  -- A backup changes two files only.
  pub make_backup-Keeps_content :
      (at : Text)
      → text_eq (backup_path env binary) at ≡ false
      → text_eq (sig_path_for (backup_path env binary)) at ≡ false
      → Keeps (content_at at) (make_backup env binary)
  unfolding make_backup copy_installed exists copy read
  make_backup-Keeps_content at apart sig_apart = chain (pure (λ w. refl)) λ installed.
      if-Keeps installed
        (chain
          (chain (pure (λ w. refl))
            λ old. write-Keeps_content env at (backup_path env binary) old apart)
          λ _. chain (copy_signature-Keeps_content at sig_apart) (λ _. pure (λ w. refl)))
        (pure (λ w. refl))
