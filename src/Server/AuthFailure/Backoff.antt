-- ===== src/Server/AuthFailure/Backoff.antt =====
-- How long a failure locks an address out, by the number of failures before it.
use native.Mathlib.Nat.{pow-succ'}
use native.Mathlib.Decide.{dec_lt}
use deltaship.Prelude.{ℕ, zero, suc, ◌*◌, ◌%◌, ◌^◌, ◌≤◌, ◌≡◌, refl, min, arith}
use deltaship.Server.AuthFailure.{u64_range, backoff_seconds}

pow-le : (a b : ℕ) → a ≤ b → 2 ^ a ≤ 2 ^ b
pow-le a zero h = let e : a ≡ zero = omega arith in rw e (omega arith)
pow-le zero (suc b) h = omega (arith, pow-le zero b (omega arith), pow-succ' 2 b)
pow-le (suc a) (suc b) h = omega (arith, pow-le a b (omega arith), pow-succ' 2 b, pow-succ' 2 a)

pub pow-pos : (e : ℕ) → 1 ≤ 2 ^ e
pow-pos e = pow-le 0 e (omega arith)

-- The product does not wrap up to exponent 58: the time doubles from 60 seconds to the ceiling.
pub backoff_seconds_exact :
    (exponent : ℕ) → exponent ≤ 58 → backoff_seconds exponent ≡ min (60 * 2 ^ exponent) 600
unfolding backoff_seconds
backoff_seconds_exact e h = omega (arith, pow-le e 58 h)

pow-mod : (e : ℕ) → 62 ≤ e → 4 * (2 ^ e % u64_range) % u64_range ≡ 0
pow-mod zero h = absurd (omega arith)
pow-mod (suc e) h = elim (dec_lt e 62) [
  | yes low ↦ let first : e ≡ 61 = omega arith in rw first refl
  | no high ↦ omega (arith, pow-mod e (omega arith), pow-succ' 2 e)
]

-- From exponent 62 on the product is a multiple of 2 ^ 64, which wraps to 0.
pub backoff_seconds_wraps : (exponent : ℕ) → 62 ≤ exponent → backoff_seconds exponent ≡ 0
unfolding backoff_seconds
backoff_seconds_wraps e h = omega (arith, pow-mod e h)
