-- ===== src/Tests/Auth.antt =====
-- A server with one key, of the publisher `acme` of one app.
use deltaship.Prelude.{◌≡◌, ◌⊎◌, refl, Bool, true, false, Option, none, some, [], ◌∷◌, any, arith}
use deltaship.Prelude.Text.{Text, ascii, text_eq}
use deltaship.Prelude.Result.{ok, err}
use deltaship.Prelude.Map.{get}
use deltaship.Server.AuthFailure.{AuthFailureEntry, is_blocked}
use deltaship.Server.Auth.{
  Publisher, can_publish, AuthState, AuthRequest, too_many_requests, request_ip, client_ip,
  verify_from, verify_api_key, matched_hash, require_api_key,
}
use deltaship.Server.Auth.Keys.{require_api_key-ok}
use deltaship.Server.Auth.Lockout.{guess_locks_out}

-- A stand-in for Argon2: a hash is its key, marked by `$`.
abbrev parse_hash : Text → Option Text
parse_hash [] = none
parse_hash (c ∷ key) = some key

abbrev verify_password : Text → Text → Bool
unfolding text_eq
verify_password key hash = text_eq key hash

abbrev dummy : Text
dummy = ascii "none"

abbrev acme : Publisher
acme = record { owner = ascii "acme"; allowed_apps = some (ascii "editor" ∷ []); pubkey = none }

abbrev addr : Text
addr = ascii "10.0.0.1"

abbrev four_failures : AuthFailureEntry
four_failures = record { failure_count = 4; backoff_until = none; last_access = 0 }

abbrev state_of : AuthFailureEntry → AuthState
state_of e = record {
  api_keys = ascii "$key" ∷ ascii "$other" ∷ [];
  publishers = (ascii "$key", acme) ∷ [];
  auth_failure_limiter = (addr, e) ∷ [];
  trust_proxy = false;
}

abbrev request : Option Text → AuthRequest
request key = record { addr = addr; forwarded_for = none; api_key = key }

passes_as_acme :
    (require_api_key parse_hash dummy verify_password
      (state_of four_failures)
      (request (some (ascii "key")))
      100
      200).1
    ≡ ok acme
unfolding require_api_key verify_password verify_api_key verify_from matched_hash is_blocked get
    text_eq client_ip
passes_as_acme = refl

require_api_key-ok_example :
    (is_blocked
        (state_of four_failures).auth_failure_limiter
        (request_ip (state_of four_failures) (request (some (ascii "key"))))
        100
      ≡ false)
    × ((key : Text) × (h : Text) × (some (ascii "key") ≡ some key)
        × (any (text_eq h) (state_of four_failures).api_keys ≡ true)
        × (((hash : Text) × (parse_hash h ≡ some hash) × (verify_password key hash ≡ true))
            ⊎ ((parse_hash h ≡ none) × (verify_password key dummy ≡ true)))
        × ((get h (state_of four_failures).publishers ≡ some acme)
            ⊎ ((app : Text) → can_publish acme app ≡ false)))
require_api_key-ok_example =
    require_api_key-ok parse_hash dummy verify_password (state_of four_failures)
      (request (some (ascii "key"))) 100 200 acme passes_as_acme

abbrev locked : AuthFailureEntry
locked = record { failure_count = 5; backoff_until = some 1000; last_access = 0 }

-- The fifth wrong key, and then the right one.
guess_locks_out_example :
    let after =
      require_api_key parse_hash dummy verify_password
        (state_of four_failures)
        (request (some (ascii "guess")))
        100
        200 in
    (after.1 ≡ err too_many_requests)
    × (require_api_key parse_hash dummy verify_password after.0
          (request (some (ascii "key")))
          300
          400
        ≡ (after.0, err too_many_requests))
guess_locks_out_example =
    guess_locks_out parse_hash dummy verify_password (state_of four_failures)
      (request (some (ascii "key"))) (request (some (ascii "guess"))) four_failures 100 200 300 400
      refl (unfold matched_hash verify_api_key verify_from verify_password text_eq in refl)
      (unfold get text_eq client_ip in refl) refl refl (omega arith) (omega arith) (omega arith)
      (omega arith)
