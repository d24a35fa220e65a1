-- ===== src/Tests/Fixtures.antt =====
-- A small instance of the `semver` crate, and names and catalogs over it.
use deltaship.Prelude.{ℕ, compare, ◌==◌, refl, false, none, List, [], ◌∷◌, arith}
use deltaship.Prelude.Text.{Text, ascii}
use deltaship.Core.Version.{Semver, IsSemver, Version}
use deltaship.Core.Platform.{linux_x86_64}
use deltaship.Server.Catalog.{VersionInfo, AppCatalog}

-- A prerelease is a number, 0 for none.
abbrev pub numbered : Semver
numbered = record {
  Prerelease = ℕ;
  Build = Unit {0};
  no_prerelease = 0;
  no_build = tt;
  is_empty = λ p. p == 0;
  prerelease_eq = ◌==◌;
  prerelease_cmp = compare;
}

pub numbered-IsSemver : IsSemver numbered
numbered-IsSemver = record {
  empty_no_prerelease = refl;
  empty_unique = λ a b h k. ground arith;
  eq_iff = λ a b. ground arith;
  cmp_eq_iff = λ a b. ground arith;
  cmp_swap = λ a b. ground arith;
  cmp_trans = λ a b c h k. ground arith;
}

abbrev pub version : ℕ → ℕ → ℕ → ℕ → Version numbered
version major minor patch pre = record {
  major = major;
  minor = minor;
  patch = patch;
  pre = pre;
  build = tt;
}

abbrev pub v1 : Version numbered
v1 = version 1 0 0 0

abbrev pub v2_beta : Version numbered
v2_beta = version 2 0 0 1

abbrev pub v2 : Version numbered
v2 = version 2 0 0 0

abbrev pub info : Version numbered → VersionInfo numbered
info v = record {
  version = v;
  platforms = linux_x86_64 ∷ [];
  release_notes = none;
  forced = false;
  rollout = none;
}

abbrev pub app : Text
app = ascii "editor"

abbrev pub catalog_of : List (VersionInfo numbered) → Version numbered → AppCatalog numbered
catalog_of versions latest = record { app_name = app; versions = versions; latest_version = latest }
