-- ===== src/Server/Auth.antt =====
-- crates/deltaship-server/src/auth.rs, with `client_ip` of rate_limit.rs and `Publisher` of state.rs:
-- who a request comes from, and whether it may go on. Argon2 is the `argon2` crate's.
pub mod Lockout
pub mod Keys
pub mod Address
use deltaship.Prelude.{
  ℕ, ◌≡◌, Bool, true, false, not, ◌&&◌, ◌||◌, Option, none, some, List, [], ◌∷◌, ◌++◌, any, find,
  map, ltb, ◌==◌, if◌then◌else◌,
}
use mathlib.Core.Option
use deltaship.Prelude.Text.{Text, ascii, text_eq}
use deltaship.Prelude.Result.{Result, ok, err}
use deltaship.Prelude.Map.{Map, get}
use deltaship.Server.AuthFailure.{AuthFailureEntry, record_failure, record_success, is_blocked}

pub record Publisher : Type 0 where
  pub owner : Text
  pub allowed_apps : Option (List Text)
  pub pubkey : Option (List ℕ)

unfoldable pub can_publish : Publisher → Text → Bool
can_publish p app_name = elim p.allowed_apps [
  | none ↦ true
  | some apps ↦ any (text_eq app_name) apps
]

-- `s.split(c)`, the part in front of the first `c` and those after it.
unfoldable pub split_parts : ℕ → Text → Text × List Text
split_parts c [] = ([], [])
split_parts c (x ∷ xs) =
    let (part, parts) = split_parts c xs in if x == c then ([], part ∷ parts) else (x ∷ part, parts)

-- A header that is a text has visible characters, spaces and tabs.
abbrev pub is_blank : ℕ → Bool
is_blank c = c == 32 || c == 9

unfoldable pub trim_start : Text → Text
trim_start [] = []
trim_start (c ∷ s) = let rest = trim_start s in if is_blank c then rest else c ∷ s

unfoldable pub trim_end : Text → Text
trim_end [] = []
trim_end (c ∷ s) =
    let rest = trim_end s in
    elim rest [ [] ↦ if is_blank c then [] else c ∷ [] | d ∷ t ↦ c ∷ d ∷ t ]

-- `.rev().find(|s| !s.is_empty())`, the last part that is not empty.
unfoldable pub last_nonempty : List Text → Option Text
last_nonempty [] = none
last_nonempty (s ∷ ss) = elim (last_nonempty ss) [
  | some t ↦ some t
  | none ↦ elim s [ [] ↦ none | c ∷ r ↦ some (c ∷ r) ]
]

-- `xff` is the header `x-forwarded-for`, where it is there and a text.
unfoldable pub client_ip : Text → Option Text → Bool → Text
client_ip addr none trust_proxy = addr
client_ip addr (some xff) false = addr
client_ip addr (some xff) true =
    let (part, parts) = split_parts b',' xff in
    elim (last_nonempty (map (λ s. trim_end (trim_start s)) (part ∷ parts))) [
      | some ip ↦ ip
      | none ↦ addr
    ]

pub data StatusCode : Type 0 where
  unauthorized too_many_requests : StatusCode

-- The part of `AppState` that authentication uses.
pub record AuthState : Type 0 where
  pub api_keys : List Text
  pub publishers : Map Publisher
  pub auth_failure_limiter : Map AuthFailureEntry
  pub trust_proxy : Bool

pub record AuthRequest : Type 0 where
  pub addr : Text
  pub forwarded_for : Option Text
  pub api_key : Option Text

abbrev pub request_ip : AuthState → AuthRequest → Text
request_ip s r = client_ip r.addr r.forwarded_for s.trust_proxy

-- The identity of a key without one: no app at all.
abbrev pub no_publisher : Publisher
no_publisher = record { owner = ascii "unknown"; allowed_apps = some []; pubkey = none }

abbrev pub publisher_or_none : Option Publisher → Publisher
publisher_or_none (some p) = p
publisher_or_none none = no_publisher

-- Parsing a hash and checking a key against it; `dummy` is the constant `DUMMY_HASH`, parsed.
module _ {Hash : Type 0} (parse_hash : Text → Option Hash) (dummy : Hash)
    (verify_password : Text → Hash → Bool) where
  -- One pass of the loop: whether the key matches a stored hash.
  abbrev pub matches : Text → Text → Bool
  matches key stored = elim (parse_hash stored) [
    | some hash ↦ verify_password key hash
    | none ↦ verify_password key dummy
  ]

  -- Every hash is tried; the last one that matches counts.
  unfoldable pub verify_from : Text → Option Text → List Text → Option Text
  verify_from key matched [] = matched
  verify_from key matched (h ∷ hs) = verify_from key (if matches key h then some h else matched) hs

  unfoldable pub verify_api_key : Text → List Text → Option Text
  unfolding verify_from
  verify_api_key key stored_hashes = verify_from key none stored_hashes

  unfoldable pub matched_hash : AuthState → Option Text → Option Text
  matched_hash s none = none
  matched_hash s (some key) = verify_api_key key s.api_keys

  -- What a request with a wrong key, or without one, leads to.
  unfoldable pub refuse : AuthState → Text → ℕ → AuthState × Result StatusCode Publisher
  refuse s ip now =
      let (entries, allowed) = record_failure s.auth_failure_limiter ip now in
      (
        record s { auth_failure_limiter = entries },
        if allowed then err unauthorized else err too_many_requests,
      )

  -- `require_api_key`; `now` is the time of the test for a lockout, `later` that of the record.
  -- A success is the publisher that the request goes on with.
  unfoldable pub require_api_key :
      AuthState → AuthRequest → ℕ → ℕ → AuthState × Result StatusCode Publisher
  unfolding matched_hash refuse
  require_api_key s r now later =
      let ip = request_ip s r in
      if is_blocked s.auth_failure_limiter ip now
      then (s, err too_many_requests)
      else elim (matched_hash s r.api_key) [
        | some hash ↦ (
          record s { auth_failure_limiter = record_success s.auth_failure_limiter ip later },
          ok (publisher_or_none (get hash s.publishers)),
        )
        | none ↦ refuse s ip later
      ]
