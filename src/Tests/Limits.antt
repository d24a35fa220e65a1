-- ===== src/Tests/Limits.antt =====
-- The two limiters on small tables.
use mathlib.Core.Option.{some-injective}
use deltaship.Prelude.{
  sym, ◌∙◌, subst, ℕ, ◌-◌, ◌≡◌, ◌≤◌, refl, false, not, none, some, [], ◌∷◌, arith, leb, inl, List,
}
use deltaship.Prelude.Text.{Text, ascii, text_eq}
use deltaship.Prelude.Map.{Map, IsMap, get, contains_key}
use deltaship.Server.RateLimit.{RateLimitEntry, RateLimiter, check_rate_limit, granted}
use deltaship.Server.RateLimit.Calls.{calls_of}
use deltaship.Server.RateLimit.Window.{IsSound, check_rate_limit-IsSound, granted_window}
use deltaship.Server.AuthFailure.{AuthFailureEntry, record_failure, is_blocked}
use deltaship.Server.AuthFailure.Blocking.{
  record_failure_keeps_backoff, record_failure_blocks, record_failure_unblocked,
}

abbrev alice : Text
alice = ascii "10.0.0.1"

abbrev bob : Text
bob = ascii "10.0.0.2"

-- Two requests in 100 nanoseconds; the window of `alice` opened at time 5.
abbrev spent : RateLimitEntry
spent = record { count = 2; window_start = 5; last_access = 9 }

abbrev limiter : RateLimiter
limiter = record { entries = (alice, spent) ∷ []; max_requests = 2; window_duration = 100 }

limiter-IsSound : IsSound limiter.entries
unfolding contains_key
limiter-IsSound = record { unique = (refl, tt); bounded = omega arith }

check_rate_limit-IsSound_example : IsSound (check_rate_limit limiter bob 50).0.entries
check_rate_limit-IsSound_example = check_rate_limit-IsSound limiter bob 50 limiter-IsSound

alice-spent : get alice limiter.entries ≡ some spent
unfolding get text_eq
alice-spent = refl

-- At time 200 the window of `alice` is over; of three requests in the new one, two are granted, with
-- one of `bob` in between.
abbrev calls : List (Text × ℕ)
calls = (alice, 210) ∷ (bob, 215) ∷ (alice, 220) ∷ []

granted_window_example : (granted limiter alice ((alice, 200) ∷ calls)).0 ≡ 2
unfolding calls_of text_eq
granted_window_example =
    granted_window limiter alice 200 calls
      (λ e h.
        subst (λ o. 100 ≤ 200 - o.window_start) (some-injective _ _ (sym alice-spent ∙ h))
          (omega arith))
      (inl (omega arith)) (omega arith, (omega arith, (omega arith, tt)))

-- `alice` is locked out until time 1000.
abbrev locked : AuthFailureEntry
locked = record { failure_count = 5; backoff_until = some 1000; last_access = 3 }

-- `bob` has failed four times.
abbrev warned : AuthFailureEntry
warned = record { failure_count = 4; backoff_until = none; last_access = 3 }

-- `carol` has failed 66 times, and her last lockout is over.
abbrev stubborn : AuthFailureEntry
stubborn = record { failure_count = 66; backoff_until = some 7; last_access = 3 }

abbrev carol : Text
carol = ascii "10.0.0.3"

abbrev failures : Map AuthFailureEntry
failures = (alice, locked) ∷ (bob, warned) ∷ (carol, stubborn) ∷ []

failures-IsMap : IsMap failures
unfolding contains_key text_eq
failures-IsMap = (refl, (refl, (refl, tt)))

alice-locked : get alice failures ≡ some locked
unfolding get text_eq
alice-locked = refl

bob-warned : get bob failures ≡ some warned
unfolding get text_eq
bob-warned = refl

carol-stubborn : get carol failures ≡ some stubborn
unfolding get text_eq
carol-stubborn = refl

record_failure_keeps_backoff_example :
    (f : AuthFailureEntry) × (get alice (record_failure failures bob 500).0 ≡ some f)
    × (f.backoff_until ≡ some 1000)
    × (f.failure_count ≡ 5)
record_failure_keeps_backoff_example =
    record_failure_keeps_backoff failures bob alice locked 500 failures-IsMap alice-locked refl

-- The fifth failure of `bob`.
record_failure_blocks_example :
    (is_blocked (record_failure failures bob 500).0 bob 1500 ≡ leb 4 4)
    × ((record_failure failures bob 500).1 ≡ not (leb 4 4))
record_failure_blocks_example =
    record_failure_blocks failures bob warned 500 1500 bob-warned refl (omega arith) (omega arith)
      (omega arith)

-- The 67th failure of `carol`.
record_failure_unblocked_example :
    is_blocked (record_failure failures carol 500).0 carol 500 ≡ false
record_failure_unblocked_example =
    record_failure_unblocked failures carol stubborn 500 500 carol-stubborn refl (omega arith)
      (omega arith) (omega arith)
