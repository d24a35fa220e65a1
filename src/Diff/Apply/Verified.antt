-- ===== src/Diff/Apply/Verified.antt =====
-- The applier that checks the digest of its output.
use deltaship.Prelude.{ℕ, ◌≡◌, some, List, arith, ◌↔◌, inl, inr, Option-cases}
use deltaship.Prelude.Text.{Text, text_eq_iff}
use deltaship.Prelude.Result.{Result, ok, err, ◌>>=◌}
use deltaship.Diff.{DiffError}
use deltaship.Diff.Apply.{apply_patch, verify, apply_patch_verified}

module _ (blake3 : List ℕ → Text) (old patch : List ℕ) (expected : Text) where
  verify-ok :
      (r : Result DiffError (List ℕ)) (new : List ℕ)
      → (r >>= verify blake3 (some expected)) ≡ ok new
      → (r ≡ ok new) × (blake3 new ≡ expected)
  unfolding verify
  verify-ok (ok out) new h = ground (arith, text_eq_iff (blake3 out) expected)
  verify-ok (err e) new h = absurd (cc)

  ok-verify : (new : List ℕ) → blake3 new ≡ expected → verify blake3 (some expected) new ≡ ok new
  unfolding verify
  ok-verify new h = ground (arith, text_eq_iff (blake3 new) expected)

  -- With an expected digest, the verified applier returns `new` exactly when the plain one returns
  -- `new` and the digest of `new` is the expected one.
  pub apply_patch_verified_iff :
      (new : List ℕ)
      → (apply_patch_verified blake3 old patch (some expected) ≡ some (ok new))
        ↔ ((apply_patch old patch ≡ some (ok new)) × (blake3 new ≡ expected))
  unfolding apply_patch_verified
  apply_patch_verified_iff new = elim (Option-cases (apply_patch old patch)) [
    | inl stuck ↦ ((λ h. absurd (cc (rw stuck at h))), (λ h. absurd (cc (rw stuck at h.0))))
    | inr (r, e) ↦ (
      (λ h. let (same, digest) = verify-ok r new (cc (rw e at h)) in (rw (e, same), digest)),
      (λ h. rw (h.0, ok-verify new h.1)),
    )
  ]
