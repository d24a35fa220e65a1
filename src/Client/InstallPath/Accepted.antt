-- ===== src/Client/InstallPath/Accepted.antt =====
-- crates/deltaship-client/src/patcher.rs: where an install path that passes the check leads.
use deltaship.Prelude.{ℕ, ◌≡◌, ◌≢◌, ◌⊎◌, true, false, none, some, List, [], ◌∷◌, ◌++◌}
use deltaship.Prelude.Text.{Text, ascii}
use deltaship.Client.InstallPath.{Host}

-- The path that is checked in place of the given one. Of an existing file it is the canonical path,
-- of a new one the file in the canonical directory, which is no link itself.
pub data Resolves (host : Host) (path : Text) : Text → Type 0 where
  existing :
      {checked : Text}
      → host.exists path ≡ true
      → host.canonicalize path ≡ some checked
      → Resolves host path checked
  without_parent :
      {checked : Text}
      → host.exists path ≡ false
      → host.parent path ≡ none
      → path ≡ checked
      → Resolves host path checked
  without_directory :
      {checked parent : Text}
      → host.exists path ≡ false
      → host.parent path ≡ some parent
      → host.exists parent ≡ false
      → path ≡ checked
      → Resolves host path checked
  in_directory :
      {checked parent directory : Text}
      → host.exists path ≡ false
      → host.parent path ≡ some parent
      → host.exists parent ≡ true
      → host.is_symlink parent ≡ false
      → host.canonicalize parent ≡ some directory
      → (elim (host.file_name path) [ some name ↦ host.join directory name | none ↦ directory ])
        ≡ checked
      → Resolves host path checked

-- The directories of Unix that no update writes to.
abbrev pub system_directories : List Text
system_directories =
    ascii "/etc"
    ∷ ascii "/usr"
    ∷ ascii "/bin"
    ∷ ascii "/sbin"
    ∷ ascii "/lib"
    ∷ ascii "/lib64"
    ∷ ascii "/boot"
    ∷ ascii "/sys"
    ∷ ascii "/proc"
    ∷ ascii "/dev"
    ∷ ascii "/var/run"
    ∷ ascii "/run"
    ∷ []

-- A path is neither the directory nor below it.
abbrev pub IsOutside : Text → Text → Type 0
IsOutside path directory = (path ≢ directory) × ((rest : Text) → path ≢ directory ++ (b'/' ∷ rest))

module _ (host : Host) where
  -- The owner is not root: that of the file, or of its directory where the file's is not known.
  abbrev pub IsNotOfRoot : Text → Type 0
  IsNotOfRoot path =
      ((u : ℕ) × (host.uid path ≡ some u) × (u ≢ 0))
      ⊎ ((host.uid path ≡ none)
          × ((host.parent path ≡ none)
              ⊎ ((parent : Text) × (host.parent path ≡ some parent) × (host.uid parent ≢ some 0))))
