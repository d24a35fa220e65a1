-- ===== src/Server/Auth/Lockout.antt =====
-- Guessing keys: what a lockout does to the requests of an address.
use deltaship.Prelude.{
  ℕ, ◌+◌, ◌≤◌, ◌<◌, ◌≡◌, refl, ◌∙◌, Bool, true, false, Option, none, some, arith,
}
use deltaship.Prelude.Text.{Text}
use deltaship.Prelude.Result.{err}
use deltaship.Prelude.Map.{get}
use deltaship.Server.AuthFailure.{
  AuthFailureEntry, in_backoff, from_secs, is_blocked, record_failure,
}
use deltaship.Server.AuthFailure.Blocking.{record_failure_blocks}
use deltaship.Server.Auth.{
  AuthState, AuthRequest, too_many_requests, request_ip, matched_hash, refuse, require_api_key,
}

module _ {Hash : Type 0} (parse_hash : Text → Option Hash) (dummy : Hash)
    (verify_password : Text → Hash → Bool) where
  -- While an address is locked out, each of its requests is refused with 429, one with a valid key
  -- too, and the refusal changes nothing.
  pub require_api_key_blocked :
      (s : AuthState) (r : AuthRequest) (now later : ℕ)
      → is_blocked s.auth_failure_limiter (request_ip s r) now ≡ true
      → require_api_key parse_hash dummy verify_password s r now later ≡ (s, err too_many_requests)
  unfolding require_api_key
  require_api_key_blocked s r now later blocked = rw blocked refl

  require_api_key-unknown :
      (s : AuthState) (r : AuthRequest) (now later : ℕ)
      → is_blocked s.auth_failure_limiter (request_ip s r) now ≡ false
      → matched_hash parse_hash dummy verify_password s r.api_key ≡ none
      → require_api_key parse_hash dummy verify_password s r now later
        ≡ refuse parse_hash dummy verify_password s (request_ip s r) later
  unfolding require_api_key
  require_api_key-unknown s r now later free unknown = rw (free, unknown) refl

  is_blocked-get :
      (s : AuthState) (r : AuthRequest) (e : AuthFailureEntry) (now later : ℕ)
      → get (request_ip s r) s.auth_failure_limiter ≡ some e
      → in_backoff now e ≡ false
      → is_blocked s.auth_failure_limiter (request_ip s r) now ≡ false
  unfolding is_blocked
  is_blocked-get s r e now later known free = rw (is_blocked, known) free

  -- The fifth guess locks an address out: where the address has failed four times or more, and 62
  -- times at most, and is not locked out already, neither when the request is tested nor when its
  -- failure is recorded, a request without a valid key is refused with 429. So is a request that
  -- follows it from the same address in the minute after that record, whatever its key, and that
  -- refusal leaves the state as it is.
  pub guess_locks_out :
      (s : AuthState) (r guess : AuthRequest) (e : AuthFailureEntry) (now later now' later' : ℕ)
      → request_ip s r ≡ request_ip s guess
      → matched_hash parse_hash dummy verify_password s guess.api_key ≡ none
      → get (request_ip s guess) s.auth_failure_limiter ≡ some e
      → in_backoff now e ≡ false
      → in_backoff later e ≡ false
      → 4 ≤ e.failure_count
      → e.failure_count < 63
      → later ≤ now'
      → now' < later + from_secs 60
      → let (s', answer) = require_api_key parse_hash dummy verify_password s guess now later in
        (answer ≡ err too_many_requests)
        × (require_api_key parse_hash dummy verify_password s' r now' later'
            ≡ (s', err too_many_requests))
  unfolding refuse
  guess_locks_out s r guess e now later now' later' same unknown known free idle many few p q =
      let ip = request_ip s guess in
      let limiter = s.auth_failure_limiter in
      let blocks = record_failure_blocks limiter ip e later now' known idle few p q in
      let s' : AuthState = record s {
        auth_failure_limiter = (record_failure limiter ip later).0;
      } in
      let refused : (record_failure limiter ip later).1 ≡ false = ground arith in
      let step : require_api_key parse_hash dummy verify_password s guess now later
          ≡ (s', err too_many_requests) =
        require_api_key-unknown s guess now later (is_blocked-get s guess e now later known free)
          unknown
        ∙ rw (refuse, refused) refl in
      rw step (refl, require_api_key_blocked s' r now' later' (rw same (ground arith)))
