-- ===== src/Server/RateLimit/Window.antt =====
-- The request limiter: its table stays small, and a window grants no more than its quota.
use deltaship.Prelude.{
  ℕ, suc, ◌+◌, ◌-◌, ◌≤◌, ◌<◌, ◌≡◌, refl, true, false, Option, none, some, List, ◌∷◌, arith, min,
  length, retain, length-retain, All, ltb, leb, inl, inr, Bool-cases, leb→le,
}
use deltaship.Prelude.Text.{Text, text_eq_refl}
use deltaship.Prelude.Map.{
  Map, IsMap, get, contains_key, contains_key-get, insert, length-insert, retain-IsMap,
  contains_key-retain, insert-IsMap,
}
use deltaship.Server.Eviction.{max_entries, evict_sampled}
use deltaship.Server.Eviction.Bounds.{
  length-evict_sampled-lt, absent-evict_sampled, evict_sampled-IsMap, absent-evict_sampled,
}
use deltaship.Server.RateLimit.{
  RateLimitEntry, RateLimiter, cleanup_expired_entries, evict_when_full, entry_or, touch, make_room,
  check_rate_limit, granted,
}
use deltaship.Server.RateLimit.Calls.{
  make_room-known, get-insert_self, granted_open, calls_of, IsQuiet,
}

length-evict_when_full :
    (w : ℕ) (m : Map RateLimitEntry) (now : ℕ)
    → length m ≤ max_entries
    → length (evict_when_full w m now) < max_entries
unfolding evict_when_full cleanup_expired_entries
length-evict_when_full w m now h = ground (
  arith,
  length-retain (λ (e : Text × RateLimitEntry). ltb (now - e.1.window_start) w) m,
  length-evict_sampled-lt (λ (_ : RateLimitEntry). true) (λ e. e.last_access) (λ _. refl)
      (retain (λ (e : Text × RateLimitEntry). ltb (now - e.1.window_start) w) m),
)

evict_when_full-IsMap :
    (w : ℕ) (m : Map RateLimitEntry) (now : ℕ) → IsMap m → IsMap (evict_when_full w m now)
unfolding evict_when_full cleanup_expired_entries
evict_when_full-IsMap w m now h = ground (
  arith,
  retain-IsMap (λ (e : Text × RateLimitEntry). ltb (now - e.1.window_start) w) m,
  evict_sampled-IsMap (λ (_ : RateLimitEntry). true) (λ e. e.last_access)
      (retain (λ (e : Text × RateLimitEntry). ltb (now - e.1.window_start) w) m),
)

-- One address, one entry, and no more than `max_entries` of them.
pub record IsSound (m : Map RateLimitEntry) : Type 0 where
  pub unique : IsMap m
  pub bounded : length m ≤ max_entries

make_room_lem :
    (l : RateLimiter) (ip : Text) (now : ℕ)
    → IsSound l.entries
    → IsSound (make_room l ip now)
      × (contains_key ip (make_room l ip now) ≡ false → length (make_room l ip now) < max_entries)
unfolding make_room
make_room_lem l ip now h = ground (
  arith,
  evict_when_full-IsMap l.window_duration l.entries now h.unique,
  length-evict_when_full l.window_duration l.entries now h.bounded,
)

entries-check_rate_limit :
    (l : RateLimiter) (ip : Text) (now : ℕ)
    → (e : RateLimitEntry) × ((check_rate_limit l ip now).0.entries
        ≡ insert ip e (make_room l ip now))
unfolding check_rate_limit
entries-check_rate_limit l ip now =
    let e = touch l.window_duration (entry_or (get ip (make_room l ip now)) now) now in
    elim (Bool-cases (leb l.max_requests e.count)) [
      | inl over ↦ (e, rw (over, check_rate_limit))
      | inr under ↦ (record e { count = e.count + 1 }, rw (under, check_rate_limit))
    ]

-- No flood of addresses makes the table hold more than `max_entries` addresses, or one address
-- twice: each call keeps both, whatever the address and the time.
pub check_rate_limit-IsSound :
    (l : RateLimiter) (ip : Text) (now : ℕ)
    → IsSound l.entries
    → IsSound (check_rate_limit l ip now).0.entries
check_rate_limit-IsSound l ip now h =
    let (e, same) = entries-check_rate_limit l ip now in
    let m = make_room l ip now in
    let (sound, room) = make_room_lem l ip now h in
    rw same (record {
      unique = insert-IsMap ip e m sound.unique;
      bounded = ground (arith, length-insert ip e m, room, sound.bounded);
    })

make_room-absent :
    (l : RateLimiter) (ip : Text) (now : ℕ)
    → get ip l.entries ≡ none
    → get ip (make_room l ip now) ≡ none
unfolding make_room evict_when_full cleanup_expired_entries
make_room-absent l ip now h =
    let live =
      retain (λ (e : Text × RateLimitEntry). ltb (now - e.1.window_start) l.window_duration)
        l.entries in
    ground (
      arith,
      contains_key-get ip l.entries,
      contains_key-get ip live,
      contains_key-get ip (evict_sampled (λ _. true) (λ (e : RateLimitEntry). e.last_access) live),
      contains_key-get ip (make_room l ip now),
      contains_key-retain
          (λ (e : Text × RateLimitEntry). ltb (now - e.1.window_start) l.window_duration) ip
          l.entries,
      absent-evict_sampled (λ _. true) (λ (e : RateLimitEntry). e.last_access) ip live,
    )

-- A request that opens a window finds no request counted.
opens :
    (l : RateLimiter) (ip : Text) (now : ℕ) (o : Option RateLimitEntry)
    → get ip l.entries ≡ o
    → ((e : RateLimitEntry) → o ≡ some e → l.window_duration ≤ now - e.window_start)
    → touch l.window_duration (entry_or (get ip (make_room l ip now)) now) now
      ≡ record { count = 0; window_start = now; last_access = now }
unfolding touch
opens l ip now none e closed = rw (make_room-absent l ip now e) (ground arith)
opens l ip now (some e) known closed =
    rw (make_room-known l ip e (touch l.window_duration e now) now known refl, known)
      (ground (arith, closed e refl))

-- What the table is after the call that opens a window leaves the rest quiet.
first-IsQuiet :
    (l : RateLimiter) (ip : Text) (now : ℕ) (e : RateLimitEntry) (calls : List (Text × ℕ))
    → IsQuiet ip l.entries ((ip, now) ∷ calls)
    → IsQuiet ip (insert ip e (make_room l ip now)) calls
unfolding make_room
first-IsQuiet l ip now e calls (inl room) =
    let same : make_room l ip now ≡ l.entries = ground (arith, room) in
    rw same (inl (ground (arith, room, length-insert ip e l.entries)))
first-IsQuiet l ip now e calls (inr own) = inr own.1

-- Where an address has no window open, of the requests that it makes in the `window_duration` from
-- `now` on, the first one at `now`, `max_requests` are granted and no more. Other addresses may call
-- in between, as long as the table has room for every call; if none does, the table may be full,
-- too.
pub granted_window :
    (l : RateLimiter) (ip : Text) (now : ℕ) (calls : List (Text × ℕ))
    → ((e : RateLimitEntry) → get ip l.entries ≡ some e → l.window_duration ≤ now - e.window_start)
    → IsQuiet ip l.entries ((ip, now) ∷ calls)
    → All (λ c. c.1 - now < l.window_duration) calls
    → (granted l ip ((ip, now) ∷ calls)).0 ≡ min (suc (calls_of ip calls)) l.max_requests
unfolding granted
granted_window l ip now calls closed quiet inside = elim (Bool-cases (leb l.max_requests 0)) [
  | inl none_allowed ↦
      let l' : RateLimiter = record l { entries = insert ip start room } in
      let step : check_rate_limit l ip now ≡ (l', false) =
        unfold check_rate_limit in rw opened (ground arith) in
      rw (step, granted, text_eq_refl ip)
        (omega (
          arith,
          leb→le l.max_requests 0 none_allowed,
          granted_open l' ip start calls (get-insert_self ip start room)
              (first-IsQuiet l ip now start calls quiet) inside,
        ))
  | inr some_allowed ↦
      let first : RateLimitEntry = record start { count = 0 + 1 } in
      let l' : RateLimiter = record l { entries = insert ip first room } in
      let positive : 0 < l.max_requests = ground arith in
      let step : check_rate_limit l ip now ≡ (l', true) =
        unfold check_rate_limit in rw opened (ground arith) in
      rw (step, granted, text_eq_refl ip)
        (omega (
          arith,
          granted_open l' ip first calls (get-insert_self ip first room)
              (first-IsQuiet l ip now first calls quiet) inside,
        ))
]
  where
    room : Map RateLimitEntry
    room = make_room l ip now

    start : RateLimitEntry
    start = record { count = 0; window_start = now; last_access = now }

    opened : touch l.window_duration (entry_or (get ip room) now) now ≡ start
    opened = opens l ip now (get ip l.entries) refl closed
