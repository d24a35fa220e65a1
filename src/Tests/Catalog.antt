-- ===== src/Tests/Catalog.antt =====
-- A catalog of two versions that gets a third.
use Prim.Native.Nat.Ordering.{lt}
use deltaship.Prelude.{◌≡◌, ◌≢◌, ◌⊎◌, refl, none, some, List, [], ◌∷◌, if◌then◌else◌}
use deltaship.Core.Version.{cmp, cmp_prerelease, version_eq}
use deltaship.Server.Catalog.{
  VersionInfo, merge_version, insert_version, binary_search_by, binary_search, update_versions,
  update_catalog_atomic,
}
use deltaship.Server.Catalog.Insert.{
  Descending, insert_newest_first, insert_version-sorted, update_versions-Descending,
}
use deltaship.Server.Catalog.Update.{
  find_version, merged_entry, find_version-update_versions, update_catalog_atomic-latest,
}
use deltaship.Tests.Fixtures.{numbered, numbered-IsSemver, v1, v2_beta, v2, info, app, catalog_of}

abbrev listed : List (VersionInfo numbered)
listed = info v2 ∷ info v1 ∷ []

listed-Descending : Descending listed
unfolding cmp
listed-Descending = ((refl, tt), (tt, tt))

beta_not_listed : merge_version (info v2_beta) listed ≡ none
unfolding merge_version version_eq
beta_not_listed = refl

beta_in_between : insert_version (info v2_beta) listed ≡ info v2 ∷ info v2_beta ∷ info v1 ∷ []
unfolding insert_version binary_search_by binary_search cmp cmp_prerelease
beta_in_between = refl

insert_version-sorted_example :
    insert_version (info v2_beta) listed ≡ insert_newest_first (info v2_beta) listed
insert_version-sorted_example =
    insert_version-sorted numbered-IsSemver (info v2_beta) listed listed-Descending beta_not_listed

update_versions-Descending_example : Descending (update_versions (info v2_beta) listed)
update_versions-Descending_example =
    update_versions-Descending numbered-IsSemver (info v2_beta) listed listed-Descending

find_version-update_versions_example : find_version v2 (update_versions (info v2_beta) listed) ≡ (
    if version_eq v2_beta v2
    then some (merged_entry (info v2_beta) (find_version v2_beta listed))
    else find_version v2 listed)
find_version-update_versions_example =
    find_version-update_versions numbered-IsSemver (info v2_beta) v2 listed

update_catalog_atomic-latest_example :
    (cmp
        (update_catalog_atomic (some (catalog_of listed v2)) app (info v2_beta)).latest_version
        v2_beta
      ≢ lt)
    × (cmp
          (update_catalog_atomic (some (catalog_of listed v2)) app (info v2_beta)).latest_version
          v2
        ≢ lt)
    × (((update_catalog_atomic (some (catalog_of listed v2)) app (info v2_beta)).latest_version
          ≡ v2_beta)
        ⊎ ((update_catalog_atomic (some (catalog_of listed v2)) app (info v2_beta)).latest_version
            ≡ v2))
update_catalog_atomic-latest_example =
    update_catalog_atomic-latest numbered-IsSemver (catalog_of listed v2) app (info v2_beta)
