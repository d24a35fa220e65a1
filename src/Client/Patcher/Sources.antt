-- ===== src/Client/Patcher/Sources.antt =====
-- crates/deltaship-client/src/patcher.rs: where the new content comes from, a diff applied to the
-- installed file or a download.
use deltaship.Prelude.{
  ℕ, Bool, true, false, none, some, List, [], ◌∷◌, ◌++◌, leb, if◌then◌else◌, length,
}
use deltaship.Prelude.Text.{Text, ascii, text_eq, strip_prefix}
use deltaship.Prelude.Int.{pos}
use deltaship.Prelude.Result
use deltaship.Prelude.Result.{Result, ok, err}
use deltaship.Diff.{DiffError}
use deltaship.Diff.Apply.{apply_patch}
use deltaship.Diff.Compress.{decompress_diff}
use deltaship.Crypto.Hashing.{from_hex}
use deltaship.Db.Client.{DbManagedBinary}
use deltaship.Client.Patcher.{
  Env, M, UpdateInfo, UpdateError, missing_url, download_failed, missing_checksum, invalid_hash,
  checksum_mismatch, too_large, patch_failed, ◌>>=◌, ◌>>◌, return, lift, require, some_or, read,
  write, remove, join, measure, check_available_memory, before_patch, others_act,
}

pub data BinarySource : Type 0 where
  in_memory : List ℕ → BinarySource
  on_disk : Text → BinarySource

abbrev pub max_signature_size : ℕ
max_signature_size = 524_288_000

abbrev pub parse_hash : Text → M (List ℕ)
parse_hash text = lift (Result.map_err (λ _. invalid_hash) (from_hex text))

module _ (env : Env) where
  -- The bytes of a source, as its file holds them at the time.
  unfoldable pub source_bytes : BinarySource → M (List ℕ)
  source_bytes (in_memory content) = return content
  source_bytes (on_disk path) = read path

  unfoldable pub verify_checksum : BinarySource → List ℕ → M (Unit {0})
  unfolding source_bytes text_eq
  verify_checksum source expected = do
    content ← source_bytes source
    require (text_eq expected (env.blake3 content)) checksum_mismatch

  unfoldable pub read_for_verification : BinarySource → M (List ℕ)
  read_for_verification (in_memory content) = return content
  read_for_verification (on_disk path) = do
    content ← read path
    require (leb (length content) max_signature_size) too_large
    check_available_memory env (length content)
    return content

  unfoldable pub cleanup : BinarySource → M (Unit {0})
  cleanup (in_memory content) = return tt
  cleanup (on_disk path) = remove env path

  -- A download that succeeds leaves its content at the path. What one that fails leaves there is
  -- not looked at.
  unfoldable pub download_file : Text → Text → M (Unit {0})
  download_file url path = do
    content ← some_or (env.fetch url) download_failed
    write env path content

  -- The magic number of zstd.
  abbrev pub is_compressed : List ℕ → Bool
  is_compressed diff = elim (strip_prefix diff (0x28 ∷ 0xb5 ∷ 0x2f ∷ 0xfd ∷ [])) [
    | none ↦ false
    | some _ ↦ true
  ]

  abbrev pub unpack : List ℕ → Result UpdateError (List ℕ)
  unpack diff =
      if is_compressed diff
      then Result.map_err (λ _. patch_failed) (decompress_diff env.decoder diff)
      else ok diff

  -- `none` is fuel that ran out, which it does not (Diff/Apply).
  abbrev pub patched : List ℕ → List ℕ → Result UpdateError (List ℕ)
  patched old diff = elim (apply_patch old diff) [
    | none ↦ err patch_failed
    | some r ↦ Result.map_err (λ (_ : DiffError). patch_failed) r
  ]

  abbrev pub diff_path : DbManagedBinary → UpdateInfo → Text
  diff_path binary update =
      join env.downloads_dir (binary.binary_name ++ (b'_' ∷ (update.version_id ++ ascii ".diff")))

  abbrev pub download_path : DbManagedBinary → UpdateInfo → Text
  download_path binary update =
      join env.downloads_dir (binary.binary_name ++ (b'_' ∷ (update.version_id ++ ascii ".tmp")))

  unfoldable pub apply_diff_update : DbManagedBinary → UpdateInfo → M (List ℕ)
  unfolding download_file
  apply_diff_update binary update = do
    diff_url ← some_or update.diff_url missing_url
    download_file diff_url (diff_path binary update)
    measure (λ m. record m {
      download_time_ms = some env.elapsed_ms;
      diff_id = some update.version_id;
      diff_algorithm = some (ascii "bsdiff");
    })
    diff_file ← read (diff_path binary update)
    measure (λ m. record m {
      diff_size_bytes = some (pos (length diff_file));
      actual_downloaded_bytes = some (pos (length diff_file));
      full_size_bytes = elim update.full_binary_size [
        | none ↦ m.full_size_bytes
        | some size ↦ some (pos size)
      ];
    })
    expected_diff_checksum ← some_or update.diff_checksum missing_checksum
    expected_hash ← parse_hash expected_diff_checksum
    if text_eq expected_hash (env.blake3 diff_file)
        then return tt
        else (remove env (diff_path binary update) >> lift (err checksum_mismatch))
    others_act env before_patch
    current_binary ← read binary.install_path
    diff_raw ← read (diff_path binary update)
    remove env (diff_path binary update)
    diff_data ← lift (unpack diff_raw)
    lift (patched current_binary diff_data)

  unfoldable pub download_full_binary : DbManagedBinary → UpdateInfo → M Text
  unfolding download_file
  download_full_binary binary update = do
    full_url ← some_or update.full_binary_url missing_url
    download_file full_url (download_path binary update)
    measure (λ m. record m { download_time_ms = some env.elapsed_ms })
    content ← read (download_path binary update)
    measure (λ m. record m {
      full_size_bytes = some (pos (length content));
      actual_downloaded_bytes = some (pos (length content));
    })
    return (download_path binary update)
