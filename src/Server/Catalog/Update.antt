-- ===== src/Server/Catalog/Update.antt =====
-- What an update makes of each version of the catalog, and of the latest one.
use Prim.Native.Nat.Ordering.{lt}
use deltaship.Prelude.{
  ℕ, zero, suc, ◌≡◌, ◌≢◌, ◌⊎◌, refl, ◌∙◌, true, ◌||◌, Option, none, some, List, [], ◌∷◌, ◌++◌,
  arith, if◌then◌else◌, inl, inr, Bool-cases, Option-cases, find, any, any-append,
}
use deltaship.Prelude.Text.{Text}
use deltaship.Core.Version.{Semver, IsSemver, Version, version_eq, cmp, gt_version}
use deltaship.Core.Version.Order.{cmp-eq_iff, cmp-swap}
use deltaship.Core.Platform.{Platform, platform_eq, platform_eq-eq}
use deltaship.Server.Catalog.{
  VersionInfo, AppCatalog, merge_platforms, merge_info, merge_version, binary_search_by, insert_at,
  insert_version, update_versions, update_catalog_atomic,
}
use deltaship.Server.Catalog.Insert.{merge-none, merge-some, version_eq_sym}

-- The entry of a version: the first one that equals it.
abbrev pub find_version : {S : Semver} → Version S → List (VersionInfo S) → Option (VersionInfo S)
find_version w = find (λ v. version_eq v.version w)

-- The entry that an update leaves for its version.
abbrev pub merged_entry : {S : Semver} → VersionInfo S → Option (VersionInfo S) → VersionInfo S
merged_entry new none = new
merged_entry new (some e) = merge_info e new

module _ {S : Semver} (laws : IsSemver S) where
  pub version_eq_left :
      (u v w : Version S) → version_eq u v ≡ true → version_eq u w ≡ version_eq v w
  version_eq_left u v w h =
      ground (arith, cmp-eq_iff laws u v, cmp-eq_iff laws u w, cmp-eq_iff laws v w)

  find-merge :
      (new : VersionInfo S) (w : Version S) (vs ws : List (VersionInfo S))
      → merge_version new vs ≡ some ws
      → find_version w ws ≡ (
          if version_eq new.version w
          then some (merged_entry new (find_version new.version vs))
          else find_version w vs)
  unfolding merge_info
  find-merge new w [] ws h = absurd (unfold merge_version in cc (h))
  find-merge new w (v ∷ vs) ws h = elim (merge-some new v vs ws h) [
    | inl (same, e) ↦ rw e (ground (arith, same, version_eq_left v.version new.version w same))
    | inr (us, other, merged, e) ↦ rw e (
        ground (
          arith,
          other,
          find-merge new w vs us merged,
          version_eq_left v.version w new.version,
          version_eq_sym laws w new.version,
        ))
  ]

  find-insert_at :
      (new : VersionInfo S) (w : Version S) (pos : ℕ) (vs : List (VersionInfo S))
      → merge_version new vs ≡ none
      → find_version w (insert_at pos new vs)
        ≡ (if version_eq new.version w then some new else find_version w vs)
  find-insert_at new w zero vs h = refl
  find-insert_at new w (suc pos) [] h = refl
  find-insert_at new w (suc pos) (v ∷ vs) h =
      let (other, rest) = merge-none new v vs h in
      ground (
        arith,
        other,
        find-insert_at new w pos vs rest,
        version_eq_left v.version w new.version,
        version_eq_sym laws w new.version,
      )

  find-none :
      (new : VersionInfo S) (vs : List (VersionInfo S))
      → merge_version new vs ≡ none
      → find_version new.version vs ≡ none
  find-none new [] h = refl
  find-none new (v ∷ vs) h =
      let (other, rest) = merge-none new v vs h in ground (arith, other, find-none new vs rest)

  -- After an update the entry of the version is the new one, merged into the old entry if there was
  -- one, and each other version has the entry that it had.
  pub find_version-update_versions :
      (new : VersionInfo S) (w : Version S) (vs : List (VersionInfo S))
      → find_version w (update_versions new vs) ≡ (
          if version_eq new.version w
          then some (merged_entry new (find_version new.version vs))
          else find_version w vs)
  unfolding update_versions insert_version
  find_version-update_versions new w vs = elim (Option-cases (merge_version new vs)) [
    | inl e ↦
        let pos = binary_search_by (λ v. cmp new.version v.version) vs in
        rw (e, update_versions) (rw (find-none new vs e) (find-insert_at new w pos vs e))
    | inr (ws, e) ↦ rw (e, update_versions) (find-merge new w vs ws e)
  ]

  -- The latest version of a catalog moves forward only: after an update it is the newer of the old
  -- latest version and the new version.
  pub update_catalog_atomic-latest :
      (c : AppCatalog S) (app_name : Text) (new : VersionInfo S)
      → let latest = (update_catalog_atomic (some c) app_name new).latest_version in
        (cmp latest new.version ≢ lt)
        × (cmp latest c.latest_version ≢ lt)
        × ((latest ≡ new.version) ⊎ (latest ≡ c.latest_version))
  unfolding update_catalog_atomic
  update_catalog_atomic-latest c app_name new =
      elim (Bool-cases (gt_version new.version c.latest_version)) [
        | inl newer ↦ rw newer (
          ground (
            arith,
            cmp-eq_iff laws new.version new.version,
            cmp-swap laws new.version new.version,
          ),
          ground arith,
          inl refl,
        )
        | inr not_newer ↦ rw not_newer (
          ground (arith, cmp-swap laws new.version c.latest_version),
          ground (arith, cmp-swap laws c.latest_version c.latest_version),
          inr refl,
        )
      ]

-- The platforms of a merged entry are those of the old entry and those of the new one.
pub any-merge_platforms :
    (p : Platform) (existing new : List Platform)
    → any (platform_eq p) (merge_platforms existing new)
      ≡ (any (platform_eq p) existing || any (platform_eq p) new)
unfolding merge_platforms
any-merge_platforms p existing [] = ground arith
any-merge_platforms p existing (q ∷ qs) = elim (Bool-cases (any (platform_eq q) existing)) [
  | inl old ↦
      rw (old, merge_platforms)
        (any-merge_platforms p existing qs ∙ ground (arith, platform_eq-eq p q, old))
  | inr new ↦
      rw (new, merge_platforms)
        (any-merge_platforms p (existing ++ q ∷ []) qs
          ∙ ground (arith, any-append (platform_eq p) existing (q ∷ [])))
]
