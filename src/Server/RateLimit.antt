-- ===== src/Server/RateLimit.antt =====
-- crates/deltaship-server/src/rate_limit.rs: the request limiter. The clock is an argument of each
-- call; a call runs under the limiter's lock, so calls follow one another.
pub mod Calls
pub mod Window
use deltaship.Prelude.{
  ℕ, suc, ◌+◌, ◌-◌, ◌≡◌, Bool, true, false, not, ◌&&◌, Option, none, some, List, [], ◌∷◌, length,
  retain, ltb, leb, if◌then◌else◌,
}
use deltaship.Prelude.Text.{Text, text_eq}
use deltaship.Prelude.Map.{Map, get, contains_key, insert}
use deltaship.Server.Eviction.{max_entries, evict_sampled}

pub record RateLimitEntry : Type 0 where
  pub count : ℕ
  pub window_start : ℕ
  pub last_access : ℕ

pub record RateLimiter : Type 0 where
  pub entries : Map RateLimitEntry
  pub max_requests : ℕ
  pub window_duration : ℕ

-- `RateLimiter::new`.
pub empty_limiter : ℕ → ℕ → RateLimiter
empty_limiter max_requests window_duration = record {
  entries = [];
  max_requests = max_requests;
  window_duration = window_duration;
}

-- The pass that the background task makes, too.
unfoldable pub cleanup_expired_entries : ℕ → Map RateLimitEntry → ℕ → Map RateLimitEntry
cleanup_expired_entries window_duration entries now =
    retain (λ e. ltb (now - e.1.window_start) window_duration) entries

unfoldable pub evict_when_full : ℕ → Map RateLimitEntry → ℕ → Map RateLimitEntry
evict_when_full window_duration entries now =
    if ltb (length entries) max_entries
    then entries
    else let live = cleanup_expired_entries window_duration entries now in
      if ltb (length live) max_entries
      then live
      else evict_sampled (λ _. true) (λ e. e.last_access) live

-- `entries.entry(ip).or_insert(..)`, for the entry alone.
abbrev pub entry_or : Option RateLimitEntry → ℕ → RateLimitEntry
entry_or (some e) now = e
entry_or none now = record { count = 0; window_start = now; last_access = now }

-- The entry with its access time, in the window that `now` lies in.
unfoldable pub touch : ℕ → RateLimitEntry → ℕ → RateLimitEntry
touch window_duration entry now =
    if leb window_duration (now - entry.window_start)
    then record { count = 0; window_start = now; last_access = now }
    else record entry { last_access = now }

-- The table that a call works on: with room for a new address.
unfoldable pub make_room : RateLimiter → Text → ℕ → Map RateLimitEntry
make_room l ip now =
    if not (contains_key ip l.entries) && leb max_entries (length l.entries)
    then evict_when_full l.window_duration l.entries now
    else l.entries

unfoldable pub check_rate_limit : RateLimiter → Text → ℕ → RateLimiter × Bool
check_rate_limit l ip now =
    let entries = make_room l ip now in
    let entry = touch l.window_duration (entry_or (get ip entries) now) now in
    if leb l.max_requests entry.count
    then (record l { entries = insert ip entry entries }, false)
    else (record l { entries = insert ip (record entry { count = entry.count + 1 }) entries }, true)

-- The calls of addresses at the given times: how many of `ip` are granted, and the limiter after
-- them.
unfoldable pub granted : RateLimiter → Text → List (Text × ℕ) → ℕ × RateLimiter
granted l ip [] = (0, l)
granted l ip ((who, now) ∷ calls) =
    let (l', allowed) = check_rate_limit l who now in
    let (n, l'') = granted l' ip calls in (if text_eq who ip && allowed then n + 1 else n, l'')
