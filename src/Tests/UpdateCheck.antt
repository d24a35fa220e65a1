-- ===== src/Tests/UpdateCheck.antt =====
-- A server with one app, whose version 2.0.0 is rolled out to half of the devices.
use deltaship.Prelude.{
  false, any, find, ◌+◌, ◌≡◌, ◌↔◌, ◌⊎◌, refl, true, none, some, [], ◌∷◌, length,
}
use deltaship.Prelude.Text.{ascii, text_eq, contains, strip_prefix}
use deltaship.Prelude.Result.{ok}
use deltaship.Core.Version.{Version, cmp, version_eq}
use deltaship.Core.Platform.{
  Platform, linux_x86_64, as_str, from_str, from_lower, to_lowercase, platform_eq,
}
use deltaship.Core.Update.{UpdateCheckResponse, available}
use deltaship.Server.Catalog.{RolloutConfig, AppCatalog}
use deltaship.Server.Validation.{validate_name, has_traversal}
use deltaship.Server.UpdateCheck.{
  Backend, DiffInfo, PlatformArtifact, VersionManifest, UpdateCheckQuery, device_in_rollout,
  left_out, offer, find_latest, answer, parse_current, check_update,
}
use deltaship.Server.UpdateCheck.Offers.{
  IsOffered, latest_artifact, answer_offers, offer_diff, check_update_offers,
}
use deltaship.Tests.Fixtures.{numbered, v1, v2, info, app, catalog_of}

abbrev half : RolloutConfig
half = record { percentage = 50; enabled = true; started_at = none; completed_at = none }

abbrev catalog : AppCatalog numbered
catalog = catalog_of (info v2 ∷ info v1 ∷ []) v2

abbrev diff_from_v1 : DiffInfo numbered
diff_from_v1 = record {
  from_version = v1;
  checksum = ascii "aa";
  size = 7;
  algorithm = ascii "bsdiff";
}

abbrev manifest : VersionManifest numbered
manifest = record {
  version = v2;
  platforms =
      (linux_x86_64, record { checksum = ascii "bb"; size = 100; diffs_from = diff_from_v1 ∷ [] })
      ∷ [];
}

-- Every text reads as 1.0.0, and a device's digest is the length of its name.
abbrev backend : Backend numbered
backend = record {
  parse = λ t. some v1;
  to_text = λ v. (48 + v.major) ∷ ascii ".0.0";
  blake3_u64 = length;
  get_app_catalog = λ a. some catalog;
  get_rollout_config = λ a v. some half;
  get_version_manifest = λ a v. some manifest;
}

abbrev query : UpdateCheckQuery
query = record {
  current_version = some (ascii "1.0.0");
  platform = ascii "linux-x86_64";
  device_id_hash = some (ascii "abc");
}

answer_offers_example :
    ((answer backend app linux_x86_64 v1 (some (ascii "abc")) catalog).update_available ≡ true)
    ↔ IsOffered backend app linux_x86_64 v1 (some (ascii "abc")) catalog
answer_offers_example = answer_offers backend app linux_x86_64 v1 (some (ascii "abc")) catalog

abbrev offered : UpdateCheckResponse numbered
offered = offer backend app linux_x86_64 v1 (some (ascii "abc")) catalog (info v2) (some half)

offer_diff_example :
    (((a : PlatformArtifact numbered)
        → latest_artifact backend app linux_x86_64 catalog ≡ some a
        → any (λ d. version_eq d.from_version v1) a.diffs_from ≡ false)
      × (offered.diff_url ≡ none)
      × (offered.diff_size ≡ none)
      × (offered.diff_checksum ≡ none))
    ⊎ ((a : PlatformArtifact numbered) × (d : DiffInfo numbered) × (latest_artifact backend app
            linux_x86_64 catalog
          ≡ some a)
        × (find (λ d. version_eq d.from_version v1) a.diffs_from ≡ some d)
        × (offered.diff_url
            ≡ some (ascii "/api/v1/apps/editor/diffs/1.0.0-to-2.0.0?platform=linux-x86_64"))
        × (offered.diff_size ≡ some d.size)
        × (offered.diff_checksum ≡ some d.checksum))
unfolding as_str
offer_diff_example =
    offer_diff backend app linux_x86_64 v1 (some (ascii "abc")) catalog (info v2) (some half)

checked : check_update backend app query ≡ ok offered
unfolding check_update validate_name has_traversal contains strip_prefix from_str from_lower
    to_lowercase text_eq parse_current answer cmp find_latest version_eq platform_eq left_out
    device_in_rollout
checked = refl

check_update_offers_example :
    (platform : Platform) × (current : Version numbered) × (c : AppCatalog numbered) × (from_str
        (ascii "linux-x86_64")
      ≡ some platform)
    × (parse_current backend (some (ascii "1.0.0")) ≡ ok current)
    × (some catalog ≡ some c)
    × (validate_name app ≡ ok tt)
    × (offered.target_version ≡ some c.latest_version)
    × IsOffered backend app platform current (some (ascii "abc")) c
unfolding offer available
check_update_offers_example = check_update_offers backend app query offered checked refl
