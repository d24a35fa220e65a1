-- ===== src/Server/AuthFailure.antt =====
-- crates/deltaship-server/src/rate_limit.rs: the limiter of failed authentications, in a release
-- build, where the sums and products of machine words wrap. Times are nanoseconds.
pub mod Backoff
pub mod Blocking
use deltaship.Prelude.{
  ℕ, suc, ◌+◌, ◌-◌, ◌*◌, ◌%◌, ◌^◌, ◌≡◌, Bool, true, false, not, ◌&&◌, ◌||◌, Option, none, some, min,
  length, retain, ltb, leb, ◌==◌, if◌then◌else◌,
}
use deltaship.Prelude.Text.{Text}
use deltaship.Prelude.Map.{Map, get, contains_key, insert, remove}
use deltaship.Server.Eviction.{max_entries, evict_sampled}

abbrev pub auth_failure_threshold : ℕ
auth_failure_threshold = 5

abbrev pub auth_backoff_base_seconds : ℕ
auth_backoff_base_seconds = 60

abbrev pub max_auth_backoff_seconds : ℕ
max_auth_backoff_seconds = 600

-- `Duration::from_secs`.
abbrev pub from_secs : ℕ → ℕ
from_secs s = s * 1_000_000_000

abbrev pub u32_range : ℕ
u32_range = 0x1_0000_0000

abbrev pub u64_range : ℕ
u64_range = 0x1_0000_0000_0000_0000

pub record AuthFailureEntry : Type 0 where
  pub failure_count : ℕ
  pub backoff_until : Option ℕ
  pub last_access : ℕ

-- The entry's backoff has not ended at `now`.
abbrev pub in_backoff : ℕ → AuthFailureEntry → Bool
in_backoff now e = elim e.backoff_until [ none ↦ false | some until ↦ ltb now until ]

unfoldable pub cleanup_expired_entries : Map AuthFailureEntry → ℕ → Map AuthFailureEntry
cleanup_expired_entries entries now =
    retain
      (λ e.
        if in_backoff now e.1
        then true
        else ltb (now - e.1.last_access) (from_secs max_auth_backoff_seconds))
      entries

-- `e.backoff_until.map(|b| now >= b).unwrap_or(true)`
abbrev pub evictable : ℕ → AuthFailureEntry → Bool
evictable now e = elim e.backoff_until [ none ↦ true | some until ↦ leb until now ]

unfoldable pub evict_when_full : Map AuthFailureEntry → ℕ → Map AuthFailureEntry
evict_when_full entries now =
    if ltb (length entries) max_entries
    then entries
    else let live = cleanup_expired_entries entries now in
      if ltb (length live) max_entries
      then live
      else evict_sampled (evictable now) (λ e. e.last_access) live

unfoldable pub make_room : Map AuthFailureEntry → Text → ℕ → Map AuthFailureEntry
make_room entries ip now =
    if not (contains_key ip entries) && leb max_entries (length entries)
    then evict_when_full entries now
    else entries

-- `entries.entry(ip).or_insert(..)` and the access time, for the entry alone.
abbrev pub entry_or : Option AuthFailureEntry → ℕ → AuthFailureEntry
entry_or (some e) now = record e { last_access = now }
entry_or none now = record { failure_count = 0; backoff_until = none; last_access = now }

-- `(base * 2_u64.pow(exponent)).min(max)`: both operations wrap.
unfoldable pub backoff_seconds : ℕ → ℕ
backoff_seconds exponent =
    min (auth_backoff_base_seconds * (2 ^ exponent % u64_range) % u64_range)
      max_auth_backoff_seconds

-- What a failure makes of an entry outside its backoff, and whether the request may go on.
unfoldable pub count_failure : AuthFailureEntry → ℕ → AuthFailureEntry × Bool
count_failure e now =
    let failures = (e.failure_count + 1) % u32_range in
    if leb auth_failure_threshold failures
    then (
      record e {
        failure_count = failures;
        backoff_until =
            some (now + from_secs (backoff_seconds (failures - auth_failure_threshold)));
      },
      false,
    )
    else (record e { failure_count = failures; backoff_until = none }, true)

unfoldable pub fail_entry : AuthFailureEntry → ℕ → AuthFailureEntry × Bool
fail_entry e now = if in_backoff now e then (e, false) else count_failure e now

unfoldable pub record_failure : Map AuthFailureEntry → Text → ℕ → Map AuthFailureEntry × Bool
record_failure entries ip now =
    let room = make_room entries ip now in
    let (e, allowed) = fail_entry (entry_or (get ip room) now) now in (insert ip e room, allowed)

unfoldable pub record_success : Map AuthFailureEntry → Text → ℕ → Map AuthFailureEntry
record_success entries ip now = elim (get ip entries) [
  | none ↦ entries
  | some e ↦
      if e.failure_count - 1 == 0
      then remove ip entries
      else insert ip
          (record { failure_count = e.failure_count - 1; backoff_until = none; last_access = now })
          entries
]

unfoldable pub is_blocked : Map AuthFailureEntry → Text → ℕ → Bool
is_blocked entries ip now = elim (get ip entries) [ none ↦ false | some e ↦ in_backoff now e ]
