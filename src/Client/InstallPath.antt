-- ===== src/Client/InstallPath.antt =====
-- crates/deltaship-client/src/patcher.rs: the check of an install path, on Unix. A path is its text.
-- `to_lowercase` is taken on the ASCII letters: no other character lowers to a letter of the
-- Windows directories alone.
pub mod Denied
pub mod Accepted
pub mod Windows
use deltaship.Prelude.{
  ℕ, ◌≡◌, Bool, true, false, not, ◌&&◌, ◌||◌, Option, none, some, List, [], ◌∷◌, any, find, map,
  leb, ◌==◌, if◌then◌else◌,
}
use deltaship.Prelude.Text.{Text, ascii, strip_prefix}
use deltaship.Prelude.Result.{Result, ok, err, ◌>>=◌, ◌>>◌, ensure, ok_or}
use deltaship.Core.Platform.{to_lowercase}

abbrev pub backslash : ℕ
backslash = 92

-- `PRIVILEGED_PATHS`.
abbrev pub privileged_paths : List Text
privileged_paths =
    ascii "/etc"
    ∷ ascii "/usr"
    ∷ ascii "/bin"
    ∷ ascii "/sbin"
    ∷ ascii "/lib"
    ∷ ascii "/lib64"
    ∷ ascii "/boot"
    ∷ ascii "/sys"
    ∷ ascii "/proc"
    ∷ ascii "/dev"
    ∷ ascii "/var/run"
    ∷ ascii "/run"
    ∷ ascii "C:\\Windows"
    ∷ ascii "C:\\Program Files"
    ∷ ascii "C:\\Program Files (x86)"
    ∷ []

-- A literal that starts the text is taken away, else the text stays.
unfoldable pub strip_verbatim_prefix : Text → Text
strip_verbatim_prefix p = elim (strip_prefix p (ascii "\\\\?\\UNC\\")) [
  | some rest ↦ rest
  | none ↦ elim (strip_prefix p (ascii "\\\\?\\")) [ some rest ↦ rest | none ↦ p ]
]

abbrev pub is_ascii_alphabetic : ℕ → Bool
is_ascii_alphabetic c = (leb b'a' c && leb c b'z') || (leb b'A' c && leb c b'Z')

unfoldable pub strip_drive : Text → Text
strip_drive [] = []
strip_drive (x ∷ []) = x ∷ []
strip_drive (x ∷ y ∷ rest) = if y == b':' && is_ascii_alphabetic x then rest else x ∷ y ∷ rest

-- `rest.is_empty() || rest.starts_with(separator)`
abbrev pub ends_component : ℕ → Text → Bool
ends_component separator [] = true
ends_component separator (c ∷ rest) = c == separator

unfoldable pub unix_path_under : Text → Text → Bool
unix_path_under candidate prefix = elim (strip_prefix candidate prefix) [
  | some rest ↦ ends_component b'/' rest
  | none ↦ false
]

-- Lower case, with `\` for `/`.
unfoldable pub normalize : Text → Text
normalize s = map (λ c. if c == b'/' then backslash else c) (to_lowercase s)

unfoldable pub windows_path_under : Text → Text → Bool
windows_path_under candidate prefix =
    let cand = strip_drive (strip_verbatim_prefix (normalize candidate)) in
    let pref = strip_drive (normalize prefix) in
    elim (strip_prefix cand pref) [ some rest ↦ ends_component backslash rest | none ↦ false ]

-- The test that the search makes of one entry.
unfoldable pub is_under : Text → Text → Bool
is_under candidate privileged =
    if any (λ c. c == backslash || c == b':') privileged
    then windows_path_under candidate privileged
    else unix_path_under candidate privileged

unfoldable pub matched_privileged_path : Text → Option Text
matched_privileged_path candidate = find (is_under candidate) privileged_paths

pub data InstallPathError : Type 0 where
  symlink unresolved parent_symlink root_owned : InstallPathError
  privileged : Text → InstallPathError

-- What the check asks of the file system and of `Path`. `uid` is that of the metadata, where they
-- can be read; `is_root` says whether the effective user is root.
pub record Host : Type 0 where
  pub is_symlink : Text → Bool
  pub exists : Text → Bool
  pub canonicalize : Text → Option Text
  pub parent : Text → Option Text
  pub file_name : Text → Option Text
  pub join : Text → Text → Text
  pub uid : Text → Option ℕ
  pub is_root : Bool

module _ (host : Host) where
  -- The resolved path of a file that is not there yet, in a directory that is.
  unfoldable pub resolve_in : Text → Text → Result InstallPathError Text
  resolve_in parent path = do
    ensure (not (host.is_symlink parent)) parent_symlink
    canonical_parent ← ok_or (host.canonicalize parent) unresolved
    ok (elim (host.file_name path) [
      | some name ↦ host.join canonical_parent name
      | none ↦ canonical_parent
    ])

  unfoldable pub resolve_new : Text → Result InstallPathError Text
  unfolding resolve_in
  resolve_new path = elim (host.parent path) [
    | none ↦ ok path
    | some parent ↦ if host.exists parent then resolve_in parent path else ok path
  ]

  unfoldable pub resolve : Text → Result InstallPathError Text
  unfolding resolve_new
  resolve path =
      if host.exists path then ok_or (host.canonicalize path) unresolved else resolve_new path

  unfoldable pub check_privileged : Text → Result InstallPathError (Unit {0})
  check_privileged path = elim (matched_privileged_path path) [
    | some directory ↦ err (privileged directory)
    | none ↦ ok tt
  ]

  abbrev pub owned_by_root : Option ℕ → Bool
  owned_by_root none = false
  owned_by_root (some u) = u == 0

  -- The owner of the file, or of its directory where the file's metadata cannot be read.
  abbrev pub owner : Text → Option ℕ
  owner path = elim (host.uid path) [
    | some u ↦ some u
    | none ↦ elim (host.parent path) [ none ↦ none | some parent ↦ host.uid parent ]
  ]

  unfoldable pub check_owner : Text → Result InstallPathError (Unit {0})
  check_owner path = ensure (not (owned_by_root (owner path)) || host.is_root) root_owned

  unfoldable pub validate_install_path : Text → Result InstallPathError (Unit {0})
  validate_install_path path = do
    ensure (not (host.is_symlink path)) symlink
    check_path ← resolve path
    check_privileged check_path
    check_owner check_path
