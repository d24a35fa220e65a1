-- ===== src/Client/Patcher/Atomic.antt =====
-- crates/deltaship-client/src/patcher.rs: what is installed after apply_update, on every branch.
use deltaship.Prelude.{
  ℕ, ◌≡◌, refl, sym, ap, subst, ◌∙◌, true, false, Option, some, List, ◌⊎◌, inl, inr,
}
use deltaship.Prelude.Text.{Text, text_eq}
use deltaship.Prelude.Map
use deltaship.Prelude.Map.{Map}
use deltaship.Prelude.Result.{Result, ok, err}
use deltaship.Crypto.Hashing.{from_hex}
use deltaship.Db.Client.{DbManagedBinary, UpdateMetrics}
use deltaship.Db.Client.History.{record_update_start}
use deltaship.Client.Patcher.{
  Env, World, M, UpdateInfo, UpdateError, continue, query, sig_path_for, Moment, others_act,
}
use deltaship.Client.Patcher.Execute.{execute_update}
use deltaship.Client.Patcher.Update.{
  update_record, check_space, backup_path, make_backup, conclude, apply_update,
}
use deltaship.Client.Patcher.Installed.{execute_update-IsInstalled}
use deltaship.Client.Patcher.Keeps.{Keeps}
use deltaship.Client.Patcher.Touched.{IsTouched, execute_update-Keeps}
use deltaship.Client.Patcher.Space.{check_space-Keeps_all}
use deltaship.Client.Patcher.Restored.{
  content_at, write-Keeps_content, remove-Keeps_content, query-Keeps_content, make_backup-content,
  recover-content, record_success-Keeps_content, make_backup-Keeps_content,
}

-- What holds after each way a chain can end holds after the chain.
continue-holds {ℓ} :
    {A B : Type 0} (P : World → Type ℓ) (r : Result UpdateError A) (w : World) (f : A → M B)
    → ((e : UpdateError) → r ≡ err e → P w)
    → ((a : A) → r ≡ ok a → P (f a w).1)
    → P (continue r w f).1
unfolding continue
continue-holds P (ok a) w f failed next = next a refl
continue-holds P (err e) w f failed next = failed e refl

module _ (env : Env) (binary : DbManagedBinary) (update : UpdateInfo) where
  -- The installed file is the old one, or one with the checksum of the update.
  abbrev pub IsOldOrNew : List ℕ → World → Type 0
  IsOldOrNew old w =
      (content_at binary.install_path w ≡ some old)
      ⊎ ((new : List ℕ) × (content_at binary.install_path w ≡ some new)
          × (from_hex update.checksum ≡ ok (env.blake3 new)))

  -- No file that the update writes or removes is the backup, nor is the installed file the backup's
  -- signature, and other programs leave the backup alone.
  abbrev pub IsBackupSafe : Type 0
  IsBackupSafe =
      ((path : Text)
        → IsTouched env binary update path
        → text_eq path (backup_path env binary) ≡ false)
      × (text_eq (backup_path env binary) binary.install_path ≡ false)
      × (text_eq (sig_path_for (backup_path env binary)) binary.install_path ≡ false)
      × ((moment : Moment) (files : Map (List ℕ))
          → Map.get (backup_path env binary) (env.interfere moment files)
            ≡ Map.get (backup_path env binary) files)

  module _ (can : env.can_write binary.install_path ≡ true) (safe : IsBackupSafe) where
    execute_update-Keeps_backup :
        Keeps (content_at (backup_path env binary)) (execute_update env binary update)
    unfolding others_act
    execute_update-Keeps_backup =
        let at = backup_path env binary in
        let (apart, _, _, others) = safe in
        execute_update-Keeps env binary update
          (λ path content touched. write-Keeps_content env at path content (apart path touched))
          (λ path touched. remove-Keeps_content env at path (apart path touched))
          (λ f. record { keep = λ w. refl })
          (λ moment. record { keep = λ w. others moment w.files })

    conclude-IsOldOrNew :
        (message : UpdateError → Text) (update_id : ℕ) (old : List ℕ) (w : World)
        (r : Result UpdateError UpdateMetrics × World)
        → execute_update env binary update w ≡ r
        → content_at (backup_path env binary) w ≡ some old
        → IsOldOrNew old
            (conclude env message binary update update_id (some (backup_path env binary)) r).1
    unfolding conclude
    conclude-IsOldOrNew message update_id old w (ok metrics, w') ran held =
        let (expected, hashed, (new, there, digest)) =
          execute_update-IsInstalled env binary update w ran in
        let kept =
          (record_success-Keeps_content env binary update binary.install_path update_id
              (some (backup_path env binary)) metrics).keep
            w' in
        inr (new, kept ∙ there, hashed ∙ ap ok (sym digest))
    conclude-IsOldOrNew message update_id old w (err e, w') ran held =
        let kept =
          ap
            (λ (r : Result UpdateError UpdateMetrics × World).
              content_at (backup_path env binary) r.1)
            (sym ran)
          ∙ execute_update-Keeps_backup.keep w in
        inl (recover-content env binary update message update_id e w' old can (kept ∙ held))

    -- However an update ends, what is installed is the old file, or one with the checksum of the
    -- update. The backup is put back after any failure, so it is assumed to be out of the way of the
    -- update and of other programs, and the installed file to be writable.
    pub apply_update-IsOldOrNew :
        (message : UpdateError → Text) (w : World) (old : List ℕ)
        → content_at binary.install_path w ≡ some old
        → IsOldOrNew old (apply_update env message binary update w).1
    unfolding apply_update
    apply_update-IsOldOrNew message w old there =
        let at = binary.install_path in
        let (_, apart, sig_apart, _) = safe in
        let w1 = (check_space env binary update w).1 in
        let same1 = ap (content_at at) ((check_space-Keeps_all env binary update).keep w) ∙ there in
        let start = query (record_update_start env.now (update_record binary update)) in
        let w2 = (start w1).1 in
        let same2 =
          (query-Keeps_content at (record_update_start env.now (update_record binary update))).keep
            w1
          ∙ same1 in
        let w3 = (make_backup env binary w2).1 in
        let same3 =
          (make_backup-Keeps_content env binary update at apart sig_apart).keep w2 ∙ same2 in
        continue-holds (IsOldOrNew old) _ w _ (λ e _. inl there)
          λ _ _.
            continue-holds (IsOldOrNew old) _ w1 _ (λ e _. inl same1)
              λ _ _.
                continue-holds (IsOldOrNew old) _ w2 _ (λ e _. inl same2)
                  λ update_id _.
                    continue-holds (IsOldOrNew old) _ w3 _ (λ e _. inl same3)
                      λ backup made.
                        let (named, held) =
                          make_backup-content env binary update w2 old same2
                            (ap (λ (r : Result UpdateError (Option Text)). (r, w3)) made) in
                        subst
                          (λ (b : Option Text).
                            IsOldOrNew old
                              (conclude env message binary update update_id b
                                (execute_update env binary update w3)).1)
                          (sym named)
                          (conclude-IsOldOrNew message update_id old w3
                            (execute_update env binary update w3) refl held)
