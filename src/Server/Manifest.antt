-- ===== src/Server/Manifest.antt =====
-- crates/deltaship-server/src/storage.rs: the manifest of a version, which lists the binaries by
-- platform and the diffs to each. An operation holds the app's mutex from its read to its rename. The
-- file is opened, and made if it is missing, before the code asks whether it exists.
pub mod Published
use mathlib.Core.Option
use deltaship.Prelude.{ℕ, ◌≡◌, Bool, true, false, Option, none, some, List, [], ◌∷◌, if◌then◌else◌}
use deltaship.Prelude.Text.{Text}
use deltaship.Prelude.Result.{Result, ok, err, ◌>>=◌, ok_or}
use deltaship.Core.Version.{Semver, Version, version_eq}
use deltaship.Core.Platform.{Platform, platform_eq}
use deltaship.Server.Latest.{StorageError, not_found, io}
use deltaship.Server.UpdateCheck.{DiffInfo, PlatformArtifact, VersionManifest, get_artifact}

-- `manifest.platforms.insert(platform, artifact)`
unfoldable pub insert_artifact :
    {S : Semver}
    → Platform
    → PlatformArtifact S
    → List (Platform × PlatformArtifact S)
    → List (Platform × PlatformArtifact S)
insert_artifact p a [] = (p, a) ∷ []
insert_artifact p a ((q, b) ∷ rest) =
    if platform_eq p q then (q, a) ∷ rest else (q, b) ∷ insert_artifact p a rest

-- The diff replaces the first one from its version, or comes last.
unfoldable pub add_diff : {S : Semver} → DiffInfo S → List (DiffInfo S) → List (DiffInfo S)
add_diff d [] = d ∷ []
add_diff d (e ∷ es) = if version_eq e.from_version d.from_version then d ∷ es else e ∷ add_diff d es

module _ {S : Semver} (parse : Text → Option (Version S)) where
  -- The manifest of an unreadable file is an empty one; where the version does not parse, the task
  -- panics, which the caller gets as an I/O error.
  unfoldable pub manifest_or_default :
      Option (VersionManifest S) → Text → Result StorageError (VersionManifest S)
  manifest_or_default (some m) version = ok m
  manifest_or_default none version = do
    v ← ok_or (parse version) io
    ok (record { version = v; platforms = [] })

  unfoldable pub update_manifest :
      Option (VersionManifest S)
      → Text
      → Platform
      → Text
      → ℕ
      → Result StorageError (VersionManifest S)
  unfolding manifest_or_default
  update_manifest file version platform checksum size = do
    m ← manifest_or_default file version
    ok (record m {
      platforms =
          insert_artifact platform (record { checksum = checksum; size = size; diffs_from = [] })
            m.platforms;
    })

-- No manifest, like a missing platform, is the error of a missing file.
unfoldable pub add_diff_to_manifest :
    {S : Semver}
    → Option (VersionManifest S)
    → Platform
    → DiffInfo S
    → Result StorageError (VersionManifest S)
add_diff_to_manifest file platform diff_info = do
  m ← ok_or file not_found
  a ← ok_or (get_artifact platform m.platforms) not_found
  ok (record m {
    platforms =
        insert_artifact platform (record a { diffs_from = add_diff diff_info a.diffs_from })
          m.platforms;
  })
