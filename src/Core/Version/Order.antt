-- ===== src/Core/Version/Order.antt =====
-- The order of versions: total, and equal exactly where `==` is.
use Prim.Native.Nat.Ordering.{lt, eq}
use deltaship.Prelude.{◌≡◌, ◌↔◌, true, arith}
use deltaship.Core.Version.{Semver, IsSemver, Version, swap, version_eq, cmp_prerelease, cmp}

module _ {S : Semver} (laws : IsSemver S) where
  prerelease_eq_iff : (a b : S.Prerelease) → (cmp_prerelease S a b ≡ eq) ↔ (a ≡ b)
  unfolding cmp_prerelease
  prerelease_eq_iff a b = (
    ground (arith, laws.empty_unique a b, laws.cmp_eq_iff a b),
    λ e. rw e (ground (arith, laws.cmp_eq_iff b b)),
  )

  prerelease_swap : (a b : S.Prerelease) → cmp_prerelease S b a ≡ swap (cmp_prerelease S a b)
  unfolding cmp_prerelease
  prerelease_swap a b = ground (arith, laws.cmp_swap a b)

  prerelease_trans :
      (a b c : S.Prerelease)
      → cmp_prerelease S a b ≡ lt
      → cmp_prerelease S b c ≡ lt
      → cmp_prerelease S a c ≡ lt
  unfolding cmp_prerelease
  prerelease_trans a b c h k = ground (arith, laws.cmp_trans a b c)

  -- Two versions compare as equal exactly where `==` holds of them, and that exactly where they
  -- agree in everything but their build metadata.
  pub cmp-eq_iff :
      (v w : Version S)
      → ((cmp v w ≡ eq) ↔ (version_eq v w ≡ true))
        × ((version_eq v w ≡ true)
            ↔ ((v.major ≡ w.major) × (v.minor ≡ w.minor) × (v.patch ≡ w.patch) × (v.pre ≡ w.pre)))
  unfolding cmp version_eq
  cmp-eq_iff v w = (
    ground (arith, prerelease_eq_iff v.pre w.pre, laws.eq_iff v.pre w.pre),
    ground (arith, laws.eq_iff v.pre w.pre),
  )

  -- The order is antisymmetric: turning the comparison round turns its result round.
  pub cmp-swap : (v w : Version S) → cmp w v ≡ swap (cmp v w)
  unfolding cmp
  cmp-swap v w = ground (arith, prerelease_swap v.pre w.pre)

  -- `<` is transitive.
  pub cmp_trans : (u v w : Version S) → cmp u v ≡ lt → cmp v w ≡ lt → cmp u w ≡ lt
  unfolding cmp
  cmp_trans u v w h k = ground (arith, prerelease_trans u.pre v.pre w.pre)

  -- Equal versions compare alike with any other.
  pub cmp_congr_left : (u v w : Version S) → cmp u v ≡ eq → cmp u w ≡ cmp v w
  unfolding cmp
  cmp_congr_left u v w h = ground (arith, prerelease_eq_iff u.pre v.pre)
