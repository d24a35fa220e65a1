-- ===== src/Core/Update.antt =====
-- crates/deltaship-core/src/update.rs: the rollout percentage and the answer to an update check.
use deltaship.Prelude.{ℕ, Bool, true, false, Option, none, some, ltb, not}
use deltaship.Prelude.Text.{Text}
use deltaship.Prelude.Result.{Result, ok, ◌>>◌, ensure}
use deltaship.Core.Version.{Semver, Version}

-- The variant of `DeltashipError` that this file uses, with the rejected value in place of its text.
pub data DeltashipError : Type 0 where
  invalid_data : ℕ → DeltashipError

pub record RolloutPercentage : Type 0 where
  pub value : ℕ

-- `RolloutPercentage::new`.
unfoldable pub rollout_percentage : ℕ → Result DeltashipError RolloutPercentage
rollout_percentage value = do
  ensure (not (ltb 100 value)) (invalid_data value)
  ok (record { value = value })

pub record UpdateCheckResponse (S : Semver) : Type 0 where
  pub update_available : Bool
  pub target_version : Option (Version S)
  pub diff_url : Option Text
  pub diff_checksum : Option Text
  pub diff_size : Option ℕ
  pub full_binary_url : Option Text
  pub full_binary_size : Option ℕ
  pub checksum : Option Text
  pub signature_url : Option Text
  pub release_notes : Option Text
  pub forced : Bool
  pub rollout_percentage : Option ℕ
  pub in_rollout : Option Bool

unfoldable pub no_update : (S : Semver) → UpdateCheckResponse S
no_update S = record {
  update_available = false;
  target_version = none;
  diff_url = none;
  diff_checksum = none;
  diff_size = none;
  full_binary_url = none;
  full_binary_size = none;
  checksum = none;
  signature_url = none;
  release_notes = none;
  forced = false;
  rollout_percentage = none;
  in_rollout = none;
}

unfoldable pub available : {S : Semver} → Version S → UpdateCheckResponse S
unfolding no_update
available {S} target = record (no_update S) {
  update_available = true;
  target_version = some target;
}

unfoldable pub not_in_rollout : {S : Semver} → Version S → RolloutPercentage → UpdateCheckResponse S
unfolding no_update
not_in_rollout {S} target percentage = record (no_update S) {
  target_version = some target;
  rollout_percentage = some percentage.value;
  in_rollout = some false;
}
