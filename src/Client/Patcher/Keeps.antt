-- ===== src/Client/Patcher/Keeps.antt =====
-- crates/deltaship-client/src/patcher.rs: what execute_update leaves alone, on every branch.
use deltaship.Prelude.{◌≡◌, refl, ap, ◌∙◌, Bool, true, false, if◌then◌else◌}
use deltaship.Prelude.Result.{Result, ok, err}
use deltaship.Client.Patcher.{World, M, UpdateError, continue, ◌>>=◌}
use deltaship.Client.Patcher.Execute.{after_error, on_error, retry, or_else}

-- The observation is the same after the step, whether it succeeds or fails.
pub record Keeps {ℓ} {X : Type ℓ} {A : Type 0} (obs : World → X) (m : M A) : Type ℓ where
  pub keep : (w : World) → obs (m w).1 ≡ obs w

module _ {ℓ} {X : Type ℓ} {obs : World → X} where
  pub continue-keep :
      {A B : Type 0} (r : Result UpdateError A) (f : A → M B) (w : World)
      → ((a : A) → r ≡ ok a → Keeps obs (f a))
      → obs (continue r w f).1 ≡ obs w
  unfolding continue
  continue-keep (ok a) f w next = (next a refl).keep w
  continue-keep (err e) f w next = refl

  -- A chain keeps what its steps keep.
  pub chain :
      {A B : Type 0} {m : M A} {f : A → M B}
      → Keeps obs m
      → ((a : A) → Keeps obs (f a))
      → Keeps obs (m >>= f)
  chain {m} {f} first next = record {
    keep = λ w. continue-keep (m w).0 f (m w).1 (λ a _. next a) ∙ first.keep w;
  }

  -- The same, where the rest may rely on what the first step gives.
  pub chain_with :
      {A B : Type 0} {m : M A} {f : A → M B}
      → Keeps obs m
      → ((a : A) (w : World) → (m w).0 ≡ ok a → Keeps obs (f a))
      → Keeps obs (m >>= f)
  chain_with {m} {f} first next = record {
    keep = λ w. continue-keep (m w).0 f (m w).1 (λ a e. next a w e) ∙ first.keep w;
  }

  after_error-keep :
      {A : Type 0} (handler : M (Unit {0})) (r : Result UpdateError A × World)
      → Keeps obs handler
      → obs (after_error handler r).1 ≡ obs r.1
  after_error-keep handler (ok a, v) next = refl
  after_error-keep handler (err e, v) next = next.keep v

  pub on_error-Keeps :
      {A : Type 0} {m : M A} {handler : M (Unit {0})}
      → Keeps obs m
      → Keeps obs handler
      → Keeps obs (on_error m handler)
  on_error-Keeps {m} {handler} first next = record {
    keep = λ w. after_error-keep handler (m w) next ∙ first.keep w;
  }

  retry-keep :
      {A : Type 0} (other : M A) (r : Result UpdateError A × World)
      → Keeps obs other
      → obs (retry other r).1 ≡ obs r.1
  retry-keep other (ok a, v) next = refl
  retry-keep other (err e, v) next = next.keep v

  pub or_else-Keeps :
      {A : Type 0} {m other : M A} → Keeps obs m → Keeps obs other → Keeps obs (or_else m other)
  or_else-Keeps {m} {other} first next = record {
    keep = λ w. retry-keep other (m w) next ∙ first.keep w;
  }

  pub if-Keeps :
      {A : Type 0} (b : Bool) {m other : M A}
      → Keeps obs m
      → Keeps obs other
      → Keeps obs (if b then m else other)
  if-Keeps true first next = first
  if-Keeps false first next = next

-- A step that has no effect.
pub pure {ℓ} :
    {X : Type ℓ} {obs : World → X} {A : Type 0} {m : M A}
    → ((w : World) → (m w).1 ≡ w)
    → Keeps obs m
pure {obs} same = record { keep = λ w. ap obs (same w) }
