-- ===== src/Core/Version.antt =====
-- crates/deltaship-core/src/version.rs. The `semver` crate is a parameter: its prerelease
-- identifiers with their tests and order, its build metadata, and how it prints and parses.
pub mod Order
use Prim.Native.Nat.{compare, Ordering}
use Prim.Native.Nat.Ordering.{lt, eq, gt}
use deltaship.Prelude.{
  ℕ, ◌≡◌, ◌↔◌, Bool, true, false, ◌&&◌, Option, none, some, ◌==◌, if◌then◌else◌, map,
}
use deltaship.Prelude.Text.{Text}

pub record Semver : Type 1 where
  pub Prerelease : Type 0
  pub Build : Type 0
  pub no_prerelease : Prerelease
  pub no_build : Build
  pub is_empty : Prerelease → Bool
  pub prerelease_eq : Prerelease → Prerelease → Bool
  pub prerelease_cmp : Prerelease → Prerelease → Ordering

-- A `semver::Version`, which the source wraps.
pub record Version (S : Semver) : Type 0 where
  pub major : ℕ
  pub minor : ℕ
  pub patch : ℕ
  pub pre : S.Prerelease
  pub build : S.Build

abbrev pub swap : Ordering → Ordering
swap lt = gt
swap eq = eq
swap gt = lt

-- What the crate documents: the order of prerelease identifiers is total, agrees with their
-- equality, and only one identifier is empty.
pub record IsSemver (S : Semver) : Type 0 where
  pub empty_no_prerelease : S.is_empty S.no_prerelease ≡ true
  pub empty_unique : (a b : S.Prerelease) → S.is_empty a ≡ true → S.is_empty b ≡ true → a ≡ b
  pub eq_iff : (a b : S.Prerelease) → (S.prerelease_eq a b ≡ true) ↔ (a ≡ b)
  pub cmp_eq_iff : (a b : S.Prerelease) → (S.prerelease_cmp a b ≡ eq) ↔ (a ≡ b)
  pub cmp_swap : (a b : S.Prerelease) → S.prerelease_cmp b a ≡ swap (S.prerelease_cmp a b)
  pub cmp_trans :
      (a b c : S.Prerelease)
      → S.prerelease_cmp a b ≡ lt
      → S.prerelease_cmp b c ≡ lt
      → S.prerelease_cmp a c ≡ lt

-- `Version::new`.
unfoldable pub plain : (S : Semver) → ℕ → ℕ → ℕ → Version S
plain S major minor patch = record {
  major = major;
  minor = minor;
  patch = patch;
  pre = S.no_prerelease;
  build = S.no_build;
}

-- `PartialEq::eq`.
unfoldable pub version_eq : {S : Semver} → Version S → Version S → Bool
version_eq {S} v w =
    v.major == w.major
    && (v.minor == w.minor && (v.patch == w.patch && S.prerelease_eq v.pre w.pre))

-- An empty prerelease is greater than any other.
unfoldable pub cmp_prerelease : (S : Semver) → S.Prerelease → S.Prerelease → Ordering
cmp_prerelease S a b =
    if S.is_empty a
    then if S.is_empty b then eq else gt
    else if S.is_empty b
    then lt
    else S.prerelease_cmp a b

-- `Ord::cmp`.
unfoldable pub cmp : {S : Semver} → Version S → Version S → Ordering
cmp {S} v w = elim (compare v.major w.major) [
  | eq ↦ elim (compare v.minor w.minor) [
    | eq ↦ elim (compare v.patch w.patch) [ eq ↦ cmp_prerelease S v.pre w.pre | lt ↦ lt | gt ↦ gt ]
    | lt ↦ lt
    | gt ↦ gt
  ]
  | lt ↦ lt
  | gt ↦ gt
]

-- `v < w`, `v >= w` and `v > w` of `PartialOrd`, from `cmp`.
abbrev pub lt_version : {S : Semver} → Version S → Version S → Bool
lt_version v w = elim (cmp v w) [ lt ↦ true | eq ↦ false | gt ↦ false ]

abbrev pub ge_version : {S : Semver} → Version S → Version S → Bool
ge_version v w = elim (cmp v w) [ lt ↦ false | eq ↦ true | gt ↦ true ]

abbrev pub gt_version : {S : Semver} → Version S → Version S → Bool
gt_version v w = elim (cmp v w) [ lt ↦ false | eq ↦ false | gt ↦ true ]
