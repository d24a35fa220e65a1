-- ===== src/Client/Patcher/Execute.antt =====
-- crates/deltaship-client/src/patcher.rs: execute_update, from the choice of a source to the file
-- that is installed with its signature beside it.
use deltaship.Prelude.{
  ℕ, Bool, true, false, ◌&&◌, Option, none, some, List, ◌==◌, if◌then◌else◌, length,
}
use deltaship.Prelude.Text.{text_eq}
use deltaship.Prelude.Result
use deltaship.Prelude.Result.{Result, ok, err}
use deltaship.Client.InstallPath.{validate_install_path}
use deltaship.Db.Client.{DbManagedBinary, UpdateMetrics}
use deltaship.Db.Client.History.{no_metrics}
use deltaship.Client.Patcher.{
  Env, World, M, UpdateInfo, UpdateError, invalid_path, checksum_mismatch, missing_signature,
  download_failed, invalid_signature, invalid_key, parent_replaced, ◌>>=◌, ◌>>◌, return, lift,
  require, some_or, exists, read, write, measure, sig_path_for, verify_content, before_signature,
  before_write, after_write, others_act,
}
use deltaship.Client.Patcher.Sources.{
  BinarySource, in_memory, on_disk, parse_hash, source_bytes, verify_checksum,
  read_for_verification, cleanup, apply_diff_update, download_full_binary,
}

abbrev pub is_some {ℓ} : {A : Type ℓ} → Option A → Bool
is_some none = false
is_some (some _) = true

-- The step, with `handler` after an error, which then is the error of both.
abbrev pub after_error :
    {A : Type 0} → M (Unit {0}) → Result UpdateError A × World → Result UpdateError A × World
after_error handler (ok a, w) = (ok a, w)
after_error handler (err e, w) = (err e, (handler w).1)

abbrev pub on_error : {A : Type 0} → M A → M (Unit {0}) → M A
on_error m handler w = after_error handler (m w)

-- The step, or another where it fails.
abbrev pub retry : {A : Type 0} → M A → Result UpdateError A × World → Result UpdateError A × World
retry other (ok a, w) = (ok a, w)
retry other (err e, w) = other w

abbrev pub or_else : {A : Type 0} → M A → M A → M A
or_else m other w = retry other (m w)

module _ (env : Env) where
  unfoldable pub full_source : DbManagedBinary → UpdateInfo → M BinarySource
  full_source binary update = do
    path ← download_full_binary env binary update
    return (on_disk path)

  unfoldable pub diff_source : DbManagedBinary → UpdateInfo → M BinarySource
  diff_source binary update = do
    content ← apply_diff_update env binary update
    return (in_memory content)

  -- A diff if there is one and something to apply it to, and the full binary where that fails.
  unfoldable pub choose_source : DbManagedBinary → UpdateInfo → M BinarySource
  choose_source binary update = do
    installed ← exists binary.install_path
    if is_some update.diff_url && installed
        then or_else (diff_source binary update) (full_source binary update)
        else full_source binary update

  -- The signature, checked over the digest of what is to be installed and the version.
  unfoldable pub check_signature : DbManagedBinary → UpdateInfo → BinarySource → M (List ℕ)
  check_signature binary update source = do
    sig_url ← some_or update.signature_url missing_signature
    sig ← some_or (env.fetch sig_url) download_failed
    require (length sig == 64) invalid_signature
    require (length binary.publisher_public_key == 32) invalid_key
    require (env.is_key binary.publisher_public_key) invalid_key
    content ← read_for_verification env source
    on_error (lift (verify_content env binary.publisher_public_key sig update.version content))
        (cleanup env source)
    measure (λ m. record m { verify_time_ms = some env.elapsed_ms })
    return sig

  -- The new file: its content is taken first, then its path is checked again and it is put in place.
  unfoldable pub install : DbManagedBinary → BinarySource → M (Unit {0})
  install binary source = do
    others_act env before_write
    content ← source_bytes env source
    cleanup env source
    lift (
        Result.map_err (λ _. invalid_path)
          (validate_install_path env.host_at_write binary.install_path))
    require env.same_parent parent_replaced
    write env binary.install_path content
    measure (λ m. record m { apply_time_ms = some env.elapsed_ms })

  -- The write, the check of what is then installed, and the signature beside it.
  unfoldable pub put_in_place : DbManagedBinary → BinarySource → List ℕ → List ℕ → M UpdateMetrics
  put_in_place binary source expected sig = do
    install binary source
    others_act env after_write
    installed ← read binary.install_path
    require (text_eq expected (env.blake3 installed)) checksum_mismatch
    write env (sig_path_for binary.install_path) sig
    (λ w. (ok w.metrics, w))

  unfoldable pub verify_and_install :
      DbManagedBinary → UpdateInfo → List ℕ → BinarySource → M UpdateMetrics
  verify_and_install binary update expected source = do
    on_error (verify_checksum env source expected) (cleanup env source)
    others_act env before_signature
    sig ← check_signature binary update source
    put_in_place binary source expected sig

  unfoldable pub execute_update : DbManagedBinary → UpdateInfo → M UpdateMetrics
  execute_update binary update = do
    measure (λ _. no_metrics)
    expected ← parse_hash update.checksum
    source ← choose_source binary update
    verify_and_install binary update expected source
