-- ===== src/Client/Patcher.antt =====
-- crates/deltaship-client/src/patcher.rs: the files and the database that an update works on, and
-- the steps it is made of. A step is a function on the state that returns a result, and what it has
-- changed stays changed when it fails.
pub mod Sources
pub mod Execute
pub mod Update
pub mod Runs
pub mod Installed
pub mod Checked
pub mod Authentic
pub mod Keeps
pub mod Touched
pub mod Space
pub mod Again
pub mod Restored
pub mod Atomic
pub mod Rollback
use deltaship.Prelude.{
  ℕ, ◌+◌, ◌*◌, ◌<◌, min, Bool, true, false, not, ◌&&◌, Option, none, some, List, [], ◌∷◌, ◌++◌, leb,
  ltb, ◌==◌, if◌then◌else◌, length,
}
use deltaship.Prelude.Text.{Text, ascii, text_eq}
use deltaship.Prelude.Map
use deltaship.Prelude.Map.{Map}
use deltaship.Prelude.Int.{ℤ}
use deltaship.Prelude.Result
use deltaship.Prelude.Result.{Result, ok, err}
use deltaship.Core.Version.{Semver, Version}
use deltaship.Diff.Compress.{Stream}
use deltaship.Crypto.Signing.{signing_payload}
use deltaship.Client.InstallPath.{Host}
use deltaship.Db.{DbError}
use deltaship.Db.Client.{ClientDb, UpdateMetrics}

-- When other programs can come between two looks at the same file: after the checksum of a diff and
-- before the diff is read, after the checksum of a new file and before its signature is checked, then
-- before it is copied to its place, and after that before it is checked there.
pub data Moment : Type 0 where
  before_patch before_signature before_write after_write : Moment

-- What an update asks of the rest of the system.
pub record Env : Type 1 where
  -- The digests, the ed25519 crate's reading of a key and its strict verification of a message
  -- and a signature, the zstd decoder, and the version parser.
  pub blake3 : List ℕ → List ℕ
  pub sha256 : List ℕ → List ℕ
  pub is_key : List ℕ → Bool
  pub verify_strict : List ℕ → List ℕ → List ℕ → Bool
  pub decoder : List ℕ → Result Text Stream
  pub S : Semver
  pub parse : Text → Option (Version S)
  -- The content behind a URL, if the download succeeds.
  pub fetch : Text → Option (List ℕ)
  -- The file system when the update starts and just before its write, whether the parent directory
  -- is then the same, and which files can be written.
  pub host : Host
  pub host_at_write : Host
  pub same_parent : Bool
  pub can_write : Text → Bool
  -- What other programs do to the files at each of the moments.
  pub interfere : Moment → Map (List ℕ) → Map (List ℕ)
  pub available_memory : ℕ
  pub available_space : Text → Option ℕ
  pub strict_disk_check : Bool
  pub backups_dir : Text
  pub downloads_dir : Text
  pub now : Text
  -- What a stopwatch shows.
  pub elapsed_ms : ℤ

-- The update that the server offers. The version is its text.
pub record UpdateInfo : Type 0 where
  pub version : Text
  pub version_id : Text
  pub diff_url : Option Text
  pub diff_checksum : Option Text
  pub diff_size : Option ℕ
  pub full_binary_url : Option Text
  pub full_binary_size : Option ℕ
  pub checksum : Text
  pub signature_url : Option Text
  pub forced : Bool
  pub release_notes : Option Text

pub data UpdateError : Type 0 where
  invalid_path no_space no_memory too_large missing_url download_failed missing_checksum :
      UpdateError
  invalid_hash checksum_mismatch missing_signature invalid_signature invalid_key : UpdateError
  signature_failed patch_failed parent_replaced file_error not_found restore_failed : UpdateError
  database : DbError → UpdateError

-- The metrics are those of the update that runs.
pub record World : Type 0 where
  pub files : Map (List ℕ)
  pub db : ClientDb
  pub metrics : UpdateMetrics

abbrev pub M : Type 0 → Type 0
M A = World → Result UpdateError A × World

-- It is shut, so that a proof sees the steps of a chain one after another.
unfoldable pub continue {ℓ} :
    {A : Type 0} {B : Type ℓ}
    → Result UpdateError A
    → World
    → (A → World → Result UpdateError B × World)
    → Result UpdateError B × World
continue (ok a) w next = next a w
continue (err e) w next = (err e, w)

-- `step?`, and what follows it.
infixl 5 ◌>>=◌ ◌>>◌
abbrev pub ◌>>=◌ : {A B : Type 0} → M A → (A → M B) → M B
(m >>= f) w = continue (m w).0 (m w).1 f

abbrev pub ◌>>◌ : {B : Type 0} → M (Unit {0}) → M B → M B
m >> k = m >>= λ _. k

abbrev pub return : {A : Type 0} → A → M A
return a w = (ok a, w)

abbrev pub fail : {A : Type 0} → UpdateError → M A
fail e w = (err e, w)

-- A result of a function that touches no state.
abbrev pub lift : {A : Type 0} → Result UpdateError A → M A
lift r w = (r, w)

abbrev pub require : Bool → UpdateError → M (Unit {0})
require test e w = (Result.ensure test e, w)

abbrev pub some_or : {A : Type 0} → Option A → UpdateError → M A
some_or o e w = (Result.ok_or o e, w)

-- An operation of the database.
abbrev pub finish_query :
    {A : Type 0} → Result DbError (A × ClientDb) → World → Result UpdateError A × World
finish_query (ok (a, db)) w = (ok a, record w { db = db })
finish_query (err e) w = (err (database e), w)

abbrev pub query : {A : Type 0} → (ClientDb → Result DbError (A × ClientDb)) → M A
query f w = finish_query (f w.db) w

abbrev pub finish_execute : Result DbError ClientDb → World → Result UpdateError (Unit {0}) × World
finish_execute (ok db) w = (ok tt, record w { db = db })
finish_execute (err e) w = (err (database e), w)

abbrev pub execute : (ClientDb → Result DbError ClientDb) → M (Unit {0})
execute f w = finish_execute (f w.db) w

unfoldable pub exists : Text → M Bool
exists path w = (ok (Map.contains_key path w.files), w)

unfoldable pub read : Text → M (List ℕ)
read path w = (Result.ok_or (Map.get path w.files) file_error, w)

abbrev pub measure : (UpdateMetrics → UpdateMetrics) → M (Unit {0})
measure f w = (ok tt, record w { metrics = f w.metrics })

-- `Path::join` of a name that is not absolute.
abbrev pub join : Text → Text → Text
join dir name = dir ++ (b'/' ∷ name)

unfoldable pub sig_path_for : Text → Text
sig_path_for path = path ++ ascii ".sig"

module _ (env : Env) where
  -- A write that fails changes nothing that is looked at again. The files are written beside their
  -- place and renamed, or are copies in the directories of the client.
  unfoldable pub write : Text → List ℕ → M (Unit {0})
  write path content w =
      if env.can_write path
      then (ok tt, record w { files = Map.insert path content w.files })
      else (err file_error, w)

  unfoldable pub copy : Text → Text → M (Unit {0})
  copy from to = do content ← read from; write to content

  -- What others do to the files.
  unfoldable pub others_act : Moment → M (Unit {0})
  others_act moment w = (ok tt, record w { files = env.interfere moment w.files })

  -- `let _ = remove_file(path)`
  unfoldable pub remove : Text → M (Unit {0})
  remove path w = (ok tt, record w { files = Map.remove path w.files })

  -- The checks of a signature over a content, for the version.
  unfoldable pub verify_content : List ℕ → List ℕ → Text → List ℕ → Result UpdateError (Unit {0})
  verify_content key sig version content =
      Result.ensure (env.verify_strict key (signing_payload (env.blake3 content) version) sig)
        signature_failed

  unfoldable pub verify_backup_signature : Text → List ℕ → Text → M (Unit {0})
  verify_backup_signature backup_path publisher_public_key version = do
    there ← exists (sig_path_for backup_path)
    require there missing_signature
    sig ← read (sig_path_for backup_path)
    require (length sig == 64) invalid_signature
    require (length publisher_public_key == 32) invalid_key
    require (env.is_key publisher_public_key) invalid_key
    content ← read backup_path
    lift (verify_content publisher_public_key sig version content)

  unfoldable pub check_available_memory : ℕ → M (Unit {0})
  check_available_memory required_bytes =
      require (leb (min (required_bytes * 2) 18446744073709551615) env.available_memory) no_memory

  -- The space on the disk of a path, if its disk is known.
  unfoldable pub check_disk_space_at_path : Text → ℕ → M (Unit {0})
  check_disk_space_at_path path required_bytes = elim (env.available_space path) [
    | some available ↦ require (leb required_bytes available) no_space
    | none ↦ require (not env.strict_disk_check) no_space
  ]

  unfoldable pub check_disk_space : Text → Text → ℕ → M (Unit {0})
  unfolding check_disk_space_at_path
  check_disk_space install_path backup_path binary_size = do
    check_disk_space_at_path install_path binary_size
    check_disk_space_at_path backup_path binary_size
