-- ===== src/Server/UpdateCheck/Rollout.antt =====
-- Which devices a rollout reaches.
use deltaship.Prelude.{ℕ, ◌%◌, ◌≤◌, ◌≡◌, false, Option, some, arith, ltb}
use deltaship.Prelude.Text.{Text}
use deltaship.Core.Version.{Semver}
use deltaship.Server.Catalog.{RolloutConfig}
use deltaship.Server.UpdateCheck.{Backend, device_in_rollout, left_out}

module _ {S : Semver} (b : Backend S) where
  -- The two short cuts change nothing: up to 100%, a device is in the rollout exactly if its digest
  -- modulo 100 lies below the percentage.
  pub device_in_rollout_exact :
      (device : Text) (percentage : ℕ)
      → percentage ≤ 100
      → device_in_rollout b device percentage ≡ ltb (b.blake3_u64 device % 100) percentage
  unfolding device_in_rollout
  device_in_rollout_exact device p h = ground arith

  -- Raising the percentage of a rollout, and changing nothing else of it, leaves no device out that
  -- was not left out before.
  pub left_out_mono :
      (c d : RolloutConfig) (device : Option Text)
      → d.enabled ≡ c.enabled
      → c.percentage ≤ d.percentage
      → left_out b (some c) device ≡ false
      → left_out b (some d) device ≡ false
  unfolding left_out device_in_rollout
  left_out_mono c d device e h k = ground arith
