-- ===== src/Server/UpdateCheck.antt =====
-- crates/deltaship-server/src/routes/update.rs: the answer to a client that asks for an update. What
-- the server reads from its disk, and the BLAKE3 digest, are parameters.
pub mod Offers
pub mod Rollout
use deltaship.Prelude.{
  ℕ, ◌%◌, ◌≡◌, Bool, true, false, not, ◌&&◌, Option, none, some, List, [], ◌∷◌, ◌++◌, any, find,
  ltb, leb, ◌==◌, if◌then◌else◌,
}
use mathlib.Core.Option
use deltaship.Prelude.Text.{Text, ascii}
use deltaship.Prelude.Result.{Result, ok, err, ◌>>=◌, ◌>>◌, ok_or, map_err}
use deltaship.Core.Version.{Semver, Version, version_eq, ge_version, plain}
use deltaship.Core.Platform.{Platform, platform_eq, as_str, from_str}
use deltaship.Core.Update.{
  RolloutPercentage, rollout_percentage, UpdateCheckResponse, no_update, available, not_in_rollout,
}
use deltaship.Server.Catalog.{RolloutConfig, VersionInfo, AppCatalog}
use deltaship.Server.Validation.{validate_name}

pub record DiffInfo (S : Semver) : Type 0 where
  pub from_version : Version S
  pub checksum : Text
  pub size : ℕ
  pub algorithm : Text

pub record PlatformArtifact (S : Semver) : Type 0 where
  pub checksum : Text
  pub size : ℕ
  pub diffs_from : List (DiffInfo S)

pub record VersionManifest (S : Semver) : Type 0 where
  pub version : Version S
  pub platforms : List (Platform × PlatformArtifact S)

pub data HttpError : Type 0 where
  bad_request : Text → HttpError
  not_found : Text → HttpError

pub record UpdateCheckQuery : Type 0 where
  pub current_version : Option Text
  pub platform : Text
  pub device_id_hash : Option Text

-- What the handler reads: the parser and printer of versions, the first eight bytes of a digest as
-- a `u64`, and the three files.
pub record Backend (S : Semver) : Type 0 where
  pub parse : Text → Option (Version S)
  pub to_text : Version S → Text
  pub blake3_u64 : Text → ℕ
  pub get_app_catalog : Text → Option (AppCatalog S)
  pub get_rollout_config : Text → Text → Option RolloutConfig
  pub get_version_manifest : Text → Text → Option (VersionManifest S)

-- `manifest.platforms.get(&platform)`
unfoldable pub get_artifact :
    {S : Semver} → Platform → List (Platform × PlatformArtifact S) → Option (PlatformArtifact S)
get_artifact p [] = none
get_artifact p ((q, a) ∷ rest) = if platform_eq p q then some a else get_artifact p rest

module _ {S : Semver} (b : Backend S) where
  unfoldable pub device_in_rollout : Text → ℕ → Bool
  device_in_rollout device_id percentage =
      if percentage == 0
      then false
      else if leb 100 percentage
      then true
      else ltb (b.blake3_u64 device_id % 100) percentage

  -- The device is named, and an enabled rollout below 100% leaves it out.
  unfoldable pub left_out : Option RolloutConfig → Option Text → Bool
  left_out none device = false
  left_out (some c) none = false
  left_out (some c) (some device) =
      c.enabled && ltb c.percentage 100 && not (device_in_rollout device c.percentage)

  -- `RolloutPercentage::new(p).unwrap_or_else(|_| RolloutPercentage::new(0))`
  abbrev pub percentage_or_zero : ℕ → RolloutPercentage
  percentage_or_zero p = elim (rollout_percentage p) [ ok r ↦ r | err _ ↦ record { value = 0 } ]

  abbrev pub config_percentage : Option RolloutConfig → ℕ
  config_percentage none = 0
  config_percentage (some c) = c.percentage

  unfoldable pub find_diff : Version S → Option (PlatformArtifact S) → Option (DiffInfo S)
  find_diff current none = none
  find_diff current (some a) = find (λ d. version_eq d.from_version current) a.diffs_from

  -- The answer to a client that gets the update.
  unfoldable pub offer :
      Text
      → Platform
      → Version S
      → Option Text
      → AppCatalog S
      → VersionInfo S
      → Option RolloutConfig
      → UpdateCheckResponse S
  offer app platform current device catalog info rollout =
      let base_url = ascii "/api/v1/apps/" ++ app in
      let version_str = b.to_text catalog.latest_version in
      let artifact =
        Option.bind (b.get_version_manifest app version_str)
          (λ m. get_artifact platform m.platforms) in
      let diff = find_diff current artifact in
      record (available catalog.latest_version) {
        full_binary_url = some (
            base_url
            ++ (ascii "/versions/"
                ++ (version_str ++ (ascii "/binary?platform=" ++ as_str platform))));
        signature_url =
            some (base_url ++ (ascii "/versions/" ++ (version_str ++ ascii "/signature")));
        forced = info.forced;
        diff_url =
            Option.map
              (λ _.
                base_url
                ++ (ascii "/diffs/"
                    ++ (b.to_text current
                        ++ (ascii "-to-"
                            ++ (version_str ++ (ascii "?platform=" ++ as_str platform))))))
              diff;
        diff_checksum = Option.map (λ d. d.checksum) diff;
        diff_size = Option.map (λ d. d.size) diff;
        checksum = Option.map (λ a. a.checksum) artifact;
        release_notes = info.release_notes;
        rollout_percentage = elim rollout [
          | none ↦ none
          | some c ↦ elim (rollout_percentage c.percentage) [ ok r ↦ some r.value | err _ ↦ none ]
        ];
        in_rollout = elim rollout [
          | none ↦ none
          | some _ ↦ elim device [ none ↦ none | some _ ↦ some true ]
        ];
      }

  -- The entry of the latest version, if that version supports the platform.
  unfoldable pub find_latest : AppCatalog S → Platform → Option (VersionInfo S)
  find_latest catalog platform =
      find
        (λ v. version_eq v.version catalog.latest_version && any (platform_eq platform) v.platforms)
        catalog.versions

  unfoldable pub answer :
      Text → Platform → Version S → Option Text → AppCatalog S → UpdateCheckResponse S
  unfolding find_latest left_out
  answer app platform current device catalog =
      if ge_version current catalog.latest_version
      then no_update S
      else elim (find_latest catalog platform) [
        | none ↦ no_update S
        | some info ↦
            let rollout = b.get_rollout_config app (b.to_text catalog.latest_version) in
            if left_out rollout device
            then not_in_rollout catalog.latest_version
                (percentage_or_zero (config_percentage rollout))
            else offer app platform current device catalog info rollout
      ]

  -- An absent version counts as 0.0.0.
  unfoldable pub parse_current : Option Text → Result HttpError (Version S)
  parse_current none = ok (plain S 0 0 0)
  parse_current (some v) = ok_or (b.parse v) (bad_request (ascii "Invalid version: " ++ v))

  unfoldable pub check_update : Text → UpdateCheckQuery → Result HttpError (UpdateCheckResponse S)
  check_update app query = do
    map_err (λ _. bad_request (ascii "Invalid request")) (validate_name app)
    platform ←
        ok_or (from_str query.platform) (bad_request (ascii "Invalid platform: " ++ query.platform))
    current ← parse_current query.current_version
    catalog ← ok_or (b.get_app_catalog app) (not_found (ascii "Application not found: " ++ app))
    ok (answer app platform current query.device_id_hash catalog)
