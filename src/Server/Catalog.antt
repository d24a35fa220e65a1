-- ===== src/Server/Catalog.antt =====
-- crates/deltaship-server/src/models.rs and storage.rs: the catalog of an app and the operations on
-- it. `update_catalog_atomic` holds the app's mutex from its read to its rename, so it is one step;
-- JSON and the file system are left out, the catalog being the value that its file parses to.
pub mod Search
pub mod Insert
pub mod Update
use Prim.Native.Nat.{Ordering}
use Prim.Native.Nat.Ordering.{lt, eq, gt}
use deltaship.Prelude.{
  ℕ, zero, suc, ◌+◌, ◌-◌, ◌/◌, ◌≡◌, Bool, true, false, Option, none, some, List, [], ◌∷◌, ◌++◌, any,
  length, get_elem?, take, drop, ltb, if◌then◌else◌,
}
use mathlib.Core.Option
use deltaship.Prelude.Text.{Text}
use deltaship.Core.Version.{Semver, Version, version_eq, cmp, gt_version}
use deltaship.Core.Platform.{Platform, platform_eq}

pub record RolloutConfig : Type 0 where
  pub percentage : ℕ
  pub enabled : Bool
  pub started_at : Option Text
  pub completed_at : Option Text

pub record VersionInfo (S : Semver) : Type 0 where
  pub version : Version S
  pub platforms : List Platform
  pub release_notes : Option Text
  pub forced : Bool
  pub rollout : Option RolloutConfig

pub record AppCatalog (S : Semver) : Type 0 where
  pub app_name : Text
  pub versions : List (VersionInfo S)
  pub latest_version : Version S

-- `for p in new { if !existing.contains(p) { existing.push(p) } }`
unfoldable pub merge_platforms : List Platform → List Platform → List Platform
merge_platforms existing [] = existing
merge_platforms existing (p ∷ ps) =
    merge_platforms (if any (platform_eq p) existing then existing else existing ++ p ∷ []) ps

unfoldable pub merge_info : {S : Semver} → VersionInfo S → VersionInfo S → VersionInfo S
merge_info existing new = record existing {
  platforms = merge_platforms existing.platforms new.platforms;
  release_notes = elim new.release_notes [ none ↦ existing.release_notes | some n ↦ some n ];
}

-- The first entry of the version is merged in place; `none` if there is none.
unfoldable pub merge_version :
    {S : Semver} → VersionInfo S → List (VersionInfo S) → Option (List (VersionInfo S))
merge_version new [] = none
merge_version new (v ∷ vs) =
    if version_eq v.version new.version
    then some (merge_info v new ∷ vs)
    else Option.map (◌∷◌ v) (merge_version new vs)

-- `slice::binary_search_by`, where `f` places an element before (`lt`) or after (`gt`) the target;
-- `unwrap_or_else(|pos| pos)` takes the position of either answer. A round shrinks the range, so
-- the length is enough fuel.
unfoldable pub binary_search {ℓ} : {A : Type ℓ} → ℕ → (A → Ordering) → List A → ℕ → ℕ → ℕ
binary_search zero f xs left right = left
binary_search (suc fuel) f xs left right =
    let mid = left + (right - left) / 2 in
    if ltb left right
    then elim (get_elem? xs mid) [
      | none ↦ left
      | some x ↦ elim (f x) [
        | lt ↦ binary_search fuel f xs (mid + 1) right
        | gt ↦ binary_search fuel f xs left mid
        | eq ↦ mid
      ]
    ]
    else left

unfoldable pub binary_search_by {ℓ} : {A : Type ℓ} → (A → Ordering) → List A → ℕ
binary_search_by f xs = binary_search (length xs) f xs 0 (length xs)

-- `Vec::insert`.
abbrev pub insert_at {ℓ} : {A : Type ℓ} → ℕ → A → List A → List A
insert_at pos x xs = take pos xs ++ (x ∷ drop pos xs)

unfoldable pub insert_version :
    {S : Semver} → VersionInfo S → List (VersionInfo S) → List (VersionInfo S)
insert_version new vs = insert_at (binary_search_by (λ v. cmp new.version v.version) vs) new vs

unfoldable pub update_versions :
    {S : Semver} → VersionInfo S → List (VersionInfo S) → List (VersionInfo S)
update_versions new vs = elim (merge_version new vs) [
  | some merged ↦ merged
  | none ↦ insert_version new vs
]

-- A missing or unreadable catalog file counts as an empty catalog with the new version as latest.
unfoldable pub catalog_or_default :
    {S : Semver} → Option (AppCatalog S) → Text → VersionInfo S → AppCatalog S
catalog_or_default (some c) app_name new = c
catalog_or_default none app_name new = record {
  app_name = app_name;
  versions = [];
  latest_version = new.version;
}

-- `update_catalog_atomic`.
unfoldable pub update_catalog_atomic :
    {S : Semver} → Option (AppCatalog S) → Text → VersionInfo S → AppCatalog S
unfolding catalog_or_default
update_catalog_atomic file app_name new =
    let c = catalog_or_default file app_name new in
    record c {
      versions = update_versions new c.versions;
      latest_version =
          if gt_version new.version c.latest_version then new.version else c.latest_version;
    }
