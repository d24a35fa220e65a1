-- ===== src/Tests/Core.antt =====
-- Versions and platforms at concrete inputs.
use Prim.Native.Nat.Ordering.{lt}
use deltaship.Prelude.{◌≡◌, refl}
use deltaship.Core.Version.{cmp, cmp_prerelease}
use deltaship.Tests.Fixtures.{v1, v2_beta, v2}

-- A prerelease comes before its release.
beta_before_release : cmp v2_beta v2 ≡ lt
unfolding cmp cmp_prerelease
beta_before_release = refl

beta_after_v1 : cmp v1 v2_beta ≡ lt
unfolding cmp cmp_prerelease
beta_after_v1 = refl
