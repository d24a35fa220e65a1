-- ===== src/Client/Patcher/Touched.antt =====
-- crates/deltaship-client/src/patcher.rs: execute_update keeps whatever its writes keep, on every
-- branch, so it changes no other file and no table of the database.
use deltaship.Prelude.{
  ℕ, ◌≡◌, refl, sym, subst, ap, Bool, true, false, ◌&&◌, List, ◌⊎◌, inl, inr, if◌then◌else◌,
}
use deltaship.Prelude.Text.{Text, text_eq}
use deltaship.Prelude.Result
use deltaship.Prelude.Result.{Result, ok, err}
use deltaship.Db.Client.{DbManagedBinary, UpdateMetrics}
use deltaship.Client.Patcher.{
  Env, World, UpdateInfo, UpdateError, exists, read, write, remove, measure, sig_path_for,
  check_available_memory, Moment, before_patch, before_signature, before_write, after_write,
  others_act,
}
use deltaship.Client.Patcher.Sources.{
  BinarySource, in_memory, on_disk, source_bytes, verify_checksum, read_for_verification, cleanup,
  download_file, diff_path, download_path, apply_diff_update, download_full_binary,
}
use deltaship.Client.Patcher.Execute.{
  is_some, retry, or_else, full_source, diff_source, choose_source, check_signature, install,
  put_in_place, verify_and_install, execute_update,
}
use deltaship.Client.Patcher.Runs.{continue-ok, result}
use deltaship.Client.Patcher.Keeps.{
  Keeps, chain, chain_with, on_error-Keeps, or_else-Keeps, if-Keeps, pure,
}

module _ (env : Env) (binary : DbManagedBinary) (update : UpdateInfo) where
  -- The files that an update writes or removes.
  abbrev pub IsTouched : Text → Type 0
  IsTouched path =
      (path ≡ binary.install_path)
      ⊎ (path ≡ sig_path_for binary.install_path)
      ⊎ (path ≡ diff_path env binary update)
      ⊎ (path ≡ download_path env binary update)

  -- The file of a source is the download.
  abbrev pub IsOwn : BinarySource → Type 0
  IsOwn (in_memory content) = Unit
  IsOwn (on_disk path) = path ≡ download_path env binary update

  download_full_binary-own :
      (w : World) {path : Text} {w' : World}
      → download_full_binary env binary update w ≡ (ok path, w')
      → path ≡ download_path env binary update
  unfolding download_full_binary
  download_full_binary-own w h =
      let (_, _, h1) = continue-ok _ _ _ h in
      let (_, _, h2) = continue-ok _ _ _ h1 in
      let (_, _, h3) = continue-ok _ _ _ h2 in
      let (_, _, h4) = continue-ok _ _ _ h3 in
      let (_, _, h5) = continue-ok _ _ _ h4 in Result.ok_injective (sym (ap result h5))

  full_source-IsOwn :
      (w : World) {source : BinarySource} {w' : World}
      → full_source env binary update w ≡ (ok source, w')
      → IsOwn source
  unfolding full_source
  full_source-IsOwn w {source} h =
      let (path, e, h1) = continue-ok _ _ _ h in
      let v = (download_full_binary env binary update w).1 in
      let own = download_full_binary-own w (ap (λ (r : Result UpdateError Text). (r, v)) e) in
      subst IsOwn (Result.ok_injective (ap result h1)) own

  diff_source-IsOwn :
      (w : World) {source : BinarySource} {w' : World}
      → diff_source env binary update w ≡ (ok source, w')
      → IsOwn source
  unfolding diff_source
  diff_source-IsOwn w h =
      let (content, _, h1) = continue-ok _ _ _ h in
      subst IsOwn (Result.ok_injective (ap result h1)) tt

  or_else-IsOwn :
      (r : Result UpdateError BinarySource × World) {source : BinarySource} {w' : World}
      → ((s : BinarySource) → r.0 ≡ ok s → IsOwn s)
      → retry (full_source env binary update) r ≡ (ok source, w')
      → IsOwn source
  or_else-IsOwn (ok s, v) first h = first _ (ap result h)
  or_else-IsOwn (err e, v) first h = full_source-IsOwn v h

  branch-IsOwn :
      (b : Bool) (w : World) {source : BinarySource} {w' : World}
      → (if b
            then or_else (diff_source env binary update) (full_source env binary update)
            else full_source env binary update)
          w
        ≡ (ok source, w')
      → IsOwn source
  branch-IsOwn true w h =
      let v = (diff_source env binary update w).1 in
      or_else-IsOwn (diff_source env binary update w)
        (λ s e. diff_source-IsOwn w (ap (λ (r : Result UpdateError BinarySource). (r, v)) e)) h
  branch-IsOwn false w h = full_source-IsOwn w h

  pub choose_source-IsOwn :
      (w : World) {source : BinarySource} {w' : World}
      → choose_source env binary update w ≡ (ok source, w')
      → IsOwn source
  unfolding choose_source
  choose_source-IsOwn w h =
      let (installed, _, h1) = continue-ok _ _ _ h in
      branch-IsOwn (is_some update.diff_url && installed) _ h1

  module _ {ℓ} {X : Type ℓ} {obs : World → X}
      (writes : (path : Text) (content : List ℕ)
        → IsTouched path
        → Keeps obs (write env path content))
      (removes : (path : Text) → IsTouched path → Keeps obs (remove env path))
      (measures : (f : UpdateMetrics → UpdateMetrics) → Keeps obs (measure f))
      (others : (moment : Moment) → Keeps obs (others_act env moment)) where
    source_bytes-Keeps : (source : BinarySource) → Keeps obs (source_bytes env source)
    unfolding source_bytes read
    source_bytes-Keeps (in_memory content) = pure (λ w. refl)
    source_bytes-Keeps (on_disk path) = pure (λ w. refl)

    cleanup-Keeps : (source : BinarySource) → IsOwn source → Keeps obs (cleanup env source)
    unfolding cleanup
    cleanup-Keeps (in_memory content) own = pure (λ w. refl)
    cleanup-Keeps (on_disk path) own = removes path (inr (inr (inr own)))

    download_file-Keeps :
        (url path : Text) → IsTouched path → Keeps obs (download_file env url path)
    unfolding download_file
    download_file-Keeps url path touched =
        chain (pure (λ w. refl)) (λ content. writes path content touched)

    apply_diff_update-Keeps : Keeps obs (apply_diff_update env binary update)
    unfolding apply_diff_update read
    apply_diff_update-Keeps =
        let own : IsTouched (diff_path env binary update) = inr (inr (inl refl)) in
        let dropped = removes (diff_path env binary update) own in
        chain (pure (λ w. refl)) λ url. chain (download_file-Keeps url _ own) λ _.
          chain (measures _) λ _. chain (pure (λ w. refl)) λ diff_file. chain (measures _) λ _.
            chain (pure (λ w. refl)) λ checksum. chain (pure (λ w. refl)) λ expected.
              chain
                (if-Keeps (text_eq expected (env.blake3 diff_file)) (pure (λ w. refl))
                  (chain dropped (λ _. pure (λ w. refl))))
                λ _. chain (others before_patch) λ _. chain (pure (λ w. refl)) λ current.
                  chain (pure (λ w. refl))
                    λ raw. chain dropped λ _. chain (pure (λ w. refl)) λ diff. pure (λ w. refl)

    download_full_binary-Keeps : Keeps obs (download_full_binary env binary update)
    unfolding download_full_binary read
    download_full_binary-Keeps = chain (pure (λ w. refl)) λ url.
        chain (download_file-Keeps url _ (inr (inr (inr refl)))) λ _.
          chain (measures _)
            λ _. chain (pure (λ w. refl)) λ content. chain (measures _) λ _. pure (λ w. refl)

    choose_source-Keeps : Keeps obs (choose_source env binary update)
    unfolding choose_source exists full_source diff_source
    choose_source-Keeps =
        let full = chain download_full_binary-Keeps (λ _. pure (λ w. refl)) in
        let diff = chain apply_diff_update-Keeps (λ _. pure (λ w. refl)) in
        chain (pure (λ w. refl)) λ installed.
          if-Keeps (is_some update.diff_url && installed) (or_else-Keeps diff full) full

    verify_checksum-Keeps :
        (source : BinarySource) (expected : List ℕ)
        → Keeps obs (verify_checksum env source expected)
    unfolding verify_checksum
    verify_checksum-Keeps source expected =
        chain (source_bytes-Keeps source) (λ content. pure (λ w. refl))

    read_for_verification-Keeps :
        (source : BinarySource) → Keeps obs (read_for_verification env source)
    unfolding read_for_verification read check_available_memory
    read_for_verification-Keeps (in_memory content) = pure (λ w. refl)
    read_for_verification-Keeps (on_disk path) =
        chain (pure (λ w. refl))
          λ content. chain (pure (λ w. refl)) λ _. chain (pure (λ w. refl)) λ _. pure (λ w. refl)

    check_signature-Keeps :
        (source : BinarySource)
        → IsOwn source
        → Keeps obs (check_signature env binary update source)
    unfolding check_signature
    check_signature-Keeps source own = chain (pure (λ w. refl)) λ url.
        chain (pure (λ w. refl)) λ sig. chain (pure (λ w. refl)) λ _. chain (pure (λ w. refl)) λ _.
          chain (pure (λ w. refl)) λ _. chain (read_for_verification-Keeps source) λ content.
            chain (on_error-Keeps (pure (λ w. refl)) (cleanup-Keeps source own))
              λ _. chain (measures _) λ _. pure (λ w. refl)

    install-Keeps : (source : BinarySource) → IsOwn source → Keeps obs (install env binary source)
    unfolding install
    install-Keeps source own = chain (others before_write) λ _.
        chain (source_bytes-Keeps source) λ content. chain (cleanup-Keeps source own) λ _.
          chain (pure (λ w. refl)) λ _.
            chain (pure (λ w. refl))
              λ _. chain (writes binary.install_path content (inl refl)) λ _. measures _

    put_in_place-Keeps :
        (source : BinarySource) (expected sig : List ℕ)
        → IsOwn source
        → Keeps obs (put_in_place env binary source expected sig)
    unfolding put_in_place read
    put_in_place-Keeps source expected sig own = chain (install-Keeps source own) λ _.
        chain (others after_write) λ _. chain (pure (λ w. refl)) λ installed.
          chain (pure (λ w. refl)) λ _.
            chain (writes (sig_path_for binary.install_path) sig (inr (inl refl)))
              λ _. pure (λ w. refl)

    verify_and_install-Keeps :
        (expected : List ℕ) (source : BinarySource)
        → IsOwn source
        → Keeps obs (verify_and_install env binary update expected source)
    unfolding verify_and_install
    verify_and_install-Keeps expected source own =
        chain (on_error-Keeps (verify_checksum-Keeps source expected) (cleanup-Keeps source own))
          λ _. chain (others before_signature) λ _.
            chain (check_signature-Keeps source own)
              λ sig. put_in_place-Keeps source expected sig own

    pub execute_update-Keeps : Keeps obs (execute_update env binary update)
    unfolding execute_update
    execute_update-Keeps = chain (measures _) λ _. chain (pure (λ w. refl)) λ expected.
        chain_with choose_source-Keeps λ source w e. verify_and_install-Keeps expected source (
          choose_source-IsOwn w (
            ap (λ (r : Result UpdateError BinarySource). (r, (choose_source env binary update w).1))
              e))
