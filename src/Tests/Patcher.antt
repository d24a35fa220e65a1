-- ===== src/Tests/Patcher.antt =====
-- An update of a small program, and the database of its client.
use deltaship.Prelude.{
  inl, inr, ℕ, ◌≡◌, ◌≢◌, refl, ◌++◌, Option, none, some, List, [], ◌∷◌, true, false, take, length,
  if◌then◌else◌, zero, suc,
}
use deltaship.Prelude.Text.{Text, ascii, text_eq, strip_prefix}
use deltaship.Core.Platform.{to_lowercase}
use deltaship.Prelude.Int.{pos}
use deltaship.Prelude.Map
use deltaship.Prelude.Map.{Map}
use deltaship.Prelude.Result.{ok}
use deltaship.Core.Version.{Version}
use deltaship.Diff.Apply.{hex_encode}
use deltaship.Crypto.Hashing.{from_hex, hex_value, parse_pairs, parse_hex_byte}
use deltaship.Crypto.Signing.{signing_payload}
use deltaship.Client.InstallPath.{
  validate_install_path, resolve, check_privileged, matched_privileged_path, is_under, check_owner,
  unix_path_under, windows_path_under, strip_drive, normalize, strip_verbatim_prefix,
}
use deltaship.Db.Models.{validate_platform}
use deltaship.Db.Client.{
  ClientDb, NewManagedBinary, DbInstalledVersion, register_binary, registered,
}
use deltaship.Db.Client.History.{no_metrics}
use deltaship.Db.Client.Invariant
use deltaship.Db.Client.Trace
use deltaship.Db.Client.Trace.{empty_client_db, reached_client-IsConsistent}
use deltaship.Client.Patcher.{
  Env, World, UpdateInfo, continue, exists, read, write, remove, verify_content, sig_path_for,
  check_available_memory, others_act,
}
use deltaship.Client.Patcher.Sources.{
  source_bytes, verify_checksum, read_for_verification, cleanup, download_file,
  download_full_binary,
}
use deltaship.Client.Patcher.Execute.{
  full_source, choose_source, check_signature, install, put_in_place, verify_and_install,
  execute_update,
}
use deltaship.Client.Patcher.Update.{apply_update}
use deltaship.Client.Patcher.Authentic.{IsAuthentic, execute_update-IsAuthentic}
use deltaship.Client.Patcher.Again.{apply_update-again}
use deltaship.Client.Patcher.Atomic.{IsOldOrNew, IsBackupSafe, apply_update-IsOldOrNew}
use deltaship.Client.Patcher.{copy, verify_backup_signature}
use deltaship.Client.Patcher.Restored.{content_at}
use deltaship.Client.Patcher.Rollback.{
  restore_signature, rollback_to_backup, rollback_to_backup_verified,
}
use deltaship.Db.Client.{DbRollbackBackup, update_current_version}
use deltaship.Db.Client.Backups.{get_backup}
use deltaship.Tests.Fixtures.{numbered, v1}
use deltaship.Tests.Client.{host}

unfoldable zeros : ℕ → List ℕ
zeros zero = []
zeros (suc n) = 0 ∷ zeros n

abbrev parse_one : Text → Option (Version numbered)
parse_one s = if text_eq s (ascii "1.0.0") then some v1 else none

abbrev new_managed : NewManagedBinary
new_managed = record {
  binary_id = ascii "b1";
  binary_name = ascii "editor";
  platform = ascii "linux-x86_64";
  install_path = ascii "/opt/editor";
  publisher_public_key = zeros 32;
}

abbrev with_managed : ClientDb
with_managed = record empty_client_db { managed_binaries = registered new_managed ∷ [] }

reached_client-IsConsistent_example : Invariant.IsConsistent with_managed
unfolding register_binary validate_platform
reached_client-IsConsistent_example =
    reached_client-IsConsistent parse_one (λ days. [])
      (Trace.continued (Trace.created refl) (Trace.binary_registered new_managed refl))

-- A digest is the length of the content, and a signature is the message.
abbrev digest : List ℕ → List ℕ
digest content = length content ∷ zeros 31

abbrev signature_of : List ℕ → List ℕ
signature_of message = take 64 (message ++ zeros 64)

abbrev new_content : List ℕ
new_content = 1 ∷ 2 ∷ 3 ∷ []

abbrev signature : List ℕ
signature = signature_of (signing_payload (digest new_content) (ascii "1.0.0"))

abbrev env : Env
env = record {
  blake3 = digest;
  sha256 = digest;
  is_key = λ key. true;
  verify_strict = λ key message sig. text_eq sig (signature_of message);
  decoder = λ bytes. ok (record { bytes = bytes; failure = none });
  S = numbered;
  parse = parse_one;
  fetch = λ url. if text_eq url (ascii "/full") then some new_content else some signature;
  host = host;
  host_at_write = host;
  same_parent = true;
  can_write = λ path. true;
  interfere = λ moment files. files;
  available_memory = 1000;
  available_space = λ path. some 1000;
  strict_disk_check = true;
  backups_dir = ascii "/backups";
  downloads_dir = ascii "/downloads";
  now = ascii "2024-01-01 00:00:00";
  elapsed_ms = pos 1;
}

abbrev offered : UpdateInfo
offered = record {
  version = ascii "1.0.0";
  version_id = ascii "v1";
  diff_url = none;
  diff_checksum = none;
  diff_size = none;
  full_binary_url = some (ascii "/full");
  full_binary_size = some 3;
  checksum = hex_encode (digest new_content);
  signature_url = some (ascii "/sig");
  forced = false;
  release_notes = none;
}

abbrev recorded : DbInstalledVersion
recorded = record {
  id = 1;
  binary_id = ascii "b1";
  version_id = ascii "v1";
  version_string = ascii "1.0.0";
  file_hash_blake3 = zeros 32;
  file_hash_sha256 = zeros 32;
  file_size_bytes = pos 2;
  is_current = false;
}

abbrev machine : World
machine = record {
  files = Map.insert (ascii "/opt/editor") (7 ∷ []) [];
  db = record with_managed { installed_versions = recorded ∷ [] };
  metrics = no_metrics;
}

abbrev updated : World
updated = (execute_update env (registered new_managed) offered machine).1

execute_update-IsAuthentic_example :
    (expected : List ℕ) × (from_hex offered.checksum ≡ ok expected)
    × IsAuthentic env (registered new_managed) (ascii "1.0.0") expected updated
unfolding execute_update from_hex parse_pairs parse_hex_byte hex_value hex_encode choose_source
    exists read write remove full_source download_full_binary download_file verify_and_install
    verify_checksum source_bytes check_signature read_for_verification verify_content
    signing_payload put_in_place install others_act cleanup validate_install_path continue
    sig_path_for check_available_memory zeros Map.get Map.insert Map.remove resolve check_privileged
    matched_privileged_path is_under unix_path_under strip_prefix windows_path_under strip_drive
    normalize to_lowercase strip_verbatim_prefix check_owner
execute_update-IsAuthentic_example =
    execute_update-IsAuthentic env (registered new_managed) offered machine (λ files. refl) refl

apply_update-again_example :
    apply_update env (λ e. []) (registered new_managed) offered machine ≢ (ok tt, updated)
unfolding text_eq
apply_update-again_example =
    apply_update-again env (registered new_managed) offered (λ e. []) machine refl

backup_safe : IsBackupSafe env (registered new_managed) offered
unfolding text_eq sig_path_for
backup_safe = (
  λ path touched. elim touched [
    | inl e ↦ rw e refl
    | inr (inl e) ↦ rw e refl
    | inr (inr (inl e)) ↦ rw e refl
    | inr (inr (inr e)) ↦ rw e refl
  ],
  refl,
  refl,
  λ moment files. refl,
)

apply_update-IsOldOrNew_example :
    IsOldOrNew env
      (registered new_managed)
      offered
      (7 ∷ [])
      (apply_update env (λ e. []) (registered new_managed) offered machine).1
unfolding Map.get Map.insert text_eq
apply_update-IsOldOrNew_example =
    apply_update-IsOldOrNew env (registered new_managed) offered refl backup_safe (λ e. []) machine
      (7 ∷ []) refl

abbrev backup_file : Text
backup_file = ascii "/backups/editor"

abbrev backup : DbRollbackBackup
backup = record {
  backup_id = 1;
  binary_id = ascii "b1";
  version_id = ascii "v1";
  version_string = ascii "1.0.0";
  backup_path = backup_file;
  backup_hash_blake3 = digest new_content;
  backup_size_bytes = pos 3;
  created_at = ascii "2024-01-01 00:00:00";
  expires_at = none;
}

abbrev with_backup : World
with_backup = record machine {
  files =
      (backup_file, new_content)
      ∷ (backup_file ++ ascii ".sig", signature)
      ∷ (ascii "/opt/editor", 7 ∷ [])
      ∷ [];
  db = record machine.db { rollback_backups = backup ∷ [] };
}

rollback_to_backup_verified_example :
    (b : DbRollbackBackup) × (get_backup with_backup.db 1 ≡ some b)
    × (verify_backup_signature env b.backup_path (zeros 32) b.version_string with_backup
        ≡ (ok tt, with_backup))
    × ((content : List ℕ) × (content_at b.backup_path with_backup ≡ some content)
        × (digest content ≡ b.backup_hash_blake3)
        × (content_at
              (ascii "/opt/editor")
              (rollback_to_backup env (registered new_managed) 1 with_backup).1
            ≡ some content))
unfolding rollback_to_backup restore_signature verify_backup_signature exists read copy write
    continue sig_path_for verify_content get_backup Map.get Map.insert text_eq zeros
    update_current_version Map.contains_key signing_payload
rollback_to_backup_verified_example =
    rollback_to_backup_verified env (registered new_managed) 1 with_backup refl
