-- ===== src/Client/Patcher/Rollback.antt =====
-- crates/deltaship-client/src/patcher.rs: rollback_to_backup, and what it has verified.
use deltaship.Prelude.{ℕ, ◌≡◌, refl, sym, ap, ◌∙◌, some, List, length, ◌==◌, if◌then◌else◌}
use deltaship.Prelude.Text.{Text, text_eq, text_eq-eq, text_eq_refl}
use deltaship.Prelude.Map
use deltaship.Prelude.Map.{get-insert}
use deltaship.Prelude.Result
use deltaship.Prelude.Result.{Result, ok, err}
use deltaship.Db.Client.{DbManagedBinary, DbRollbackBackup, update_current_version}
use deltaship.Db.Client.Backups.{get_backup}
use deltaship.Client.Patcher.{
  Env, World, M, UpdateError, ◌>>=◌, ◌>>◌, return, require, execute, exists, read, copy,
  sig_path_for, verify_backup_signature, not_found, invalid_hash, checksum_mismatch, file_error,
}
use deltaship.Client.Patcher.Runs.{state, continue-ok, write-ok, sig_path_apart}
use deltaship.Client.Patcher.Keeps.{Keeps, chain, if-Keeps, pure}
use deltaship.Client.Patcher.Restored.{content_at, write-Keeps_content, execute-Keeps_content}

module _ (env : Env) where
  abbrev pub find_backup : ℕ → M DbRollbackBackup
  find_backup backup_id w = (Result.ok_or (get_backup w.db backup_id) not_found, w)

  unfoldable pub restore_signature : Text → Text → M (Unit {0})
  restore_signature backup_path install_path = do
    signed ← exists (sig_path_for backup_path)
    if signed then copy env (sig_path_for backup_path) (sig_path_for install_path) else return tt

  unfoldable pub rollback_to_backup : DbManagedBinary → ℕ → M (Unit {0})
  unfolding restore_signature
  rollback_to_backup binary backup_id = do
    backup ← find_backup backup_id
    there ← exists backup.backup_path
    require there not_found
    require (length backup.backup_hash_blake3 == 32) invalid_hash
    content ← read backup.backup_path
    require (text_eq backup.backup_hash_blake3 (env.blake3 content)) checksum_mismatch
    verify_backup_signature env backup.backup_path binary.publisher_public_key backup.version_string
    copy env backup.backup_path binary.install_path
    restore_signature backup.backup_path binary.install_path
    execute
        (update_current_version env.now binary.binary_id backup.version_id backup.version_string)

  -- The check of a backup only reads.
  verify_backup_signature-Keeps :
      (path : Text) (key : List ℕ) (version : Text)
      → Keeps (λ (w : World). w) (verify_backup_signature env path key version)
  unfolding verify_backup_signature exists read
  verify_backup_signature-Keeps path key version = chain (pure (λ w. refl)) λ there.
      chain (pure (λ w. refl)) λ _. chain (pure (λ w. refl)) λ sig. chain (pure (λ w. refl)) λ _.
        chain (pure (λ w. refl))
          λ _. chain (pure (λ w. refl)) λ _. chain (pure (λ w. refl)) λ content. pure (λ w. refl)

  restore_signature-Keeps : (from to : Text) → Keeps (content_at to) (restore_signature from to)
  unfolding restore_signature exists copy read
  restore_signature-Keeps from to = chain (pure (λ w. refl)) λ signed.
      if-Keeps signed
        (chain (pure (λ w. refl))
          λ sig. write-Keeps_content env to (sig_path_for to) sig (sig_path_apart to))
        (pure (λ w. refl))

  -- What a copy that succeeds leaves at its target.
  copy-content :
      (from to : Text) (w : World) {u : Unit {0}} {w' : World}
      → copy env from to w ≡ (ok u, w')
      → (content : List ℕ) × (content_at from w ≡ some content) × (content_at to w' ≡ some content)
  unfolding copy read
  copy-content from to w h =
      let (content, was, h1) = continue-ok _ _ _ h in
      (
        content,
        Result.ok_or-eq-ok (Map.get from w.files) file_error was,
        ap (content_at to) (sym (write-ok env to content w h1))
            ∙ get-insert to to content w.files
            ∙ rw (text_eq_refl to) refl,
      )

  -- A rollback that succeeds installs the content of the backup with that number, whose digest is
  -- the recorded one and whose signature by the publisher was accepted for the recorded version.
  pub rollback_to_backup_verified :
      (binary : DbManagedBinary) (backup_id : ℕ) (w : World) {w' : World}
      → rollback_to_backup binary backup_id w ≡ (ok tt, w')
      → (backup : DbRollbackBackup) × (get_backup w.db backup_id ≡ some backup)
        × (verify_backup_signature env backup.backup_path binary.publisher_public_key
              backup.version_string w
            ≡ (ok tt, w))
        × ((content : List ℕ) × (content_at backup.backup_path w ≡ some content)
            × (env.blake3 content ≡ backup.backup_hash_blake3)
            × (content_at binary.install_path w' ≡ some content))
  unfolding rollback_to_backup exists read
  rollback_to_backup_verified binary backup_id w h =
      let at = binary.install_path in
      let key = binary.publisher_public_key in
      let (backup, found, h1) = continue-ok _ _ _ h in
      let path = backup.backup_path in
      let (_, _, h2) = continue-ok _ _ _ h1 in
      let (_, _, h3) = continue-ok _ _ _ h2 in
      let (_, _, h4) = continue-ok _ _ _ h3 in
      let (content, was, h5) = continue-ok _ _ _ h4 in
      let (_, equal, h6) = continue-ok _ _ _ h5 in
      let (_, verified, h7) = continue-ok _ _ _ h6 in
      let v = (verify_backup_signature env path key backup.version_string w).1 in
      let same : v ≡ w = (verify_backup_signature-Keeps path key backup.version_string).keep w in
      let (_, copied, h8) = continue-ok _ _ _ h7 in
      let v1 = (copy env path at v).1 in
      let (old, held, there) =
        copy-content path at v (ap (λ (r : Result UpdateError (Unit {0})). (r, v1)) copied) in
      let (_, _, h9) = continue-ok _ _ _ h8 in
      let v2 = (restore_signature path at v1).1 in
      let set =
        update_current_version env.now binary.binary_id backup.version_id backup.version_string in
      let kept =
        ap (content_at at) (sym (ap state h9))
        ∙ (execute-Keeps_content at set).keep v2
        ∙ (restore_signature-Keeps path at).keep v1 in
      let was_there = Result.ok_or-eq-ok (Map.get path w.files) file_error was in
      let one : some old ≡ some content = sym held ∙ ap (content_at path) same ∙ was_there in
      (
        backup,
        Result.ok_or-eq-ok (get_backup w.db backup_id) not_found found,
        ap (λ (r : Result UpdateError (Unit {0})). (r, v)) verified
            ∙ ap (λ (x : World). (ok tt, x)) same,
        (
          content,
          was_there,
          sym (
              text_eq-eq backup.backup_hash_blake3 (env.blake3 content) (
                Result.ensure-eq-ok (text_eq backup.backup_hash_blake3 (env.blake3 content))
                  checksum_mismatch equal)),
          kept ∙ there ∙ one,
        ),
      )
