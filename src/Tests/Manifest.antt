-- ===== src/Tests/Manifest.antt =====
-- A manifest that gets a binary and a diff.
use deltaship.Prelude.{◌≡◌, refl, Option, none, some, [], ◌∷◌, if◌then◌else◌}
use deltaship.Prelude.Text.{Text, ascii, text_eq}
use deltaship.Prelude.Result.{ok}
use deltaship.Core.Version.{Version, version_eq}
use deltaship.Core.Platform.{linux_x86_64, macos_x86_64, platform_eq, as_str}
use deltaship.Server.UpdateCheck.{
  Backend, DiffInfo, PlatformArtifact, VersionManifest, get_artifact, find_diff,
}
use deltaship.Server.Manifest.{
  insert_artifact, add_diff, manifest_or_default, update_manifest, add_diff_to_manifest,
}
use deltaship.Server.Manifest.Published.{add_diff_to_manifest-found, update_manifest-get_artifact}
use deltaship.Tests.Fixtures.{numbered, numbered-IsSemver, v1, v2}

abbrev parse : Text → Option (Version numbered)
parse t = some v2

abbrev fresh : PlatformArtifact numbered
fresh = record { checksum = ascii "bb"; size = 100; diffs_from = [] }

abbrev empty_manifest : VersionManifest numbered
empty_manifest = record { version = v2; platforms = [] }

abbrev published : VersionManifest numbered
published = record { version = v2; platforms = (linux_x86_64, fresh) ∷ [] }

abbrev diff_from_v1 : DiffInfo numbered
diff_from_v1 = record {
  from_version = v1;
  checksum = ascii "aa";
  size = 7;
  algorithm = ascii "bsdiff";
}

abbrev with_diff : VersionManifest numbered
with_diff = record {
  version = v2;
  platforms = (linux_x86_64, record fresh { diffs_from = diff_from_v1 ∷ [] }) ∷ [];
}

-- Nothing of it is read.
abbrev backend : Backend numbered
backend = record {
  parse = parse;
  to_text = λ v. [];
  blake3_u64 = λ t. 0;
  get_app_catalog = λ a. none;
  get_rollout_config = λ a v. none;
  get_version_manifest = λ a v. none;
}

diff_added : add_diff_to_manifest (some published) linux_x86_64 diff_from_v1 ≡ ok with_diff
unfolding add_diff_to_manifest get_artifact platform_eq as_str text_eq insert_artifact add_diff
diff_added = refl

add_diff_to_manifest-found_example :
    find_diff backend v1 (get_artifact linux_x86_64 with_diff.platforms) ≡ (
      if platform_eq linux_x86_64 linux_x86_64
      then if version_eq v1 v1
        then some diff_from_v1
        else find_diff backend v1 (get_artifact linux_x86_64 published.platforms)
      else find_diff backend v1 (get_artifact linux_x86_64 published.platforms))
add_diff_to_manifest-found_example =
    add_diff_to_manifest-found numbered-IsSemver backend published with_diff linux_x86_64
      linux_x86_64 diff_from_v1 v1 diff_added

update_manifest-get_artifact_example : get_artifact macos_x86_64 published.platforms ≡ (
    if platform_eq linux_x86_64 macos_x86_64
    then some fresh
    else get_artifact macos_x86_64 empty_manifest.platforms)
update_manifest-get_artifact_example =
    update_manifest-get_artifact parse none (ascii "2.0.0") (ascii "bb") linux_x86_64 macos_x86_64
      100 empty_manifest published (unfold manifest_or_default in refl)
      (unfold update_manifest insert_artifact in refl)
