-- ===== src/Server/RateLimit/Calls.antt =====
-- The request limiter: what the calls of an open window do, with calls of others in between.
use deltaship.Prelude.{
  ℕ, suc, ◌+◌, ◌-◌, ◌≤◌, ◌<◌, ◌≡◌, refl, true, false, some, List, [], ◌∷◌, arith, min, length, All,
  leb, inl, inr, Bool-cases, ◌⊎◌, ◌∙◌, subst, sym, if◌then◌else◌,
}
use deltaship.Prelude.Text.{Text, text_eq_refl, text_eq, text_eq-eq}
use deltaship.Prelude.Map.{Map, get, contains_key-get, insert, get-insert, length-insert}
use deltaship.Server.Eviction.{max_entries}
use deltaship.Server.RateLimit.{
  RateLimitEntry, RateLimiter, entry_or, touch, make_room, check_rate_limit, granted,
}

-- The call of an address that has an entry, where `t` is the entry as `touch` leaves it.
module _ (l : RateLimiter) (ip : Text) (e t : RateLimitEntry) (now : ℕ)
    (known : get ip l.entries ≡ some e) (touched : touch l.window_duration e now ≡ t) where
  pub make_room-known : make_room l ip now ≡ l.entries
  unfolding make_room
  make_room-known = ground (arith, contains_key-get ip l.entries)

  refuses :
      l.max_requests ≤ t.count
      → check_rate_limit l ip now ≡ (record l { entries = insert ip t l.entries }, false)
  unfolding check_rate_limit
  refuses h = rw (make_room-known, known, touched) (ground arith)

  grants :
      t.count < l.max_requests
      → check_rate_limit l ip now
        ≡ (record l { entries = insert ip (record t { count = t.count + 1 }) l.entries }, true)
  unfolding check_rate_limit
  grants h = rw (make_room-known, known, touched) (ground arith)

pub touch_open :
    (w : ℕ) (e : RateLimitEntry) (now : ℕ)
    → now - e.window_start < w
    → touch w e now ≡ record e { last_access = now }
unfolding touch
touch_open w e now h = ground arith

pub get-insert_self :
    (ip : Text) (e : RateLimitEntry) (m : Map RateLimitEntry) → get ip (insert ip e m) ≡ some e
get-insert_self ip e m = rw (get-insert ip ip e m, text_eq_refl ip)

-- How many of the calls are of the address.
unfoldable pub calls_of : Text → List (Text × ℕ) → ℕ
calls_of ip [] = 0
calls_of ip ((who, now) ∷ calls) = let n = calls_of ip calls in if text_eq who ip then suc n else n

-- The table has room for each call, or no other address calls.
abbrev pub IsQuiet : Text → Map RateLimitEntry → List (Text × ℕ) → Type 0
IsQuiet ip m calls =
    (length m + length calls ≤ max_entries) ⊎ All (λ c. text_eq c.0 ip ≡ true) calls

-- A call where the table has room touches the caller's entry only.
roomy_call :
    (l : RateLimiter) (who : Text) (now : ℕ)
    → length l.entries < max_entries
    → (e : RateLimitEntry) × ((check_rate_limit l who now).0
        ≡ record l { entries = insert who e l.entries })
unfolding check_rate_limit make_room
roomy_call l who now room =
    let same : make_room l who now ≡ l.entries = ground arith in
    let e = touch l.window_duration (entry_or (get who l.entries) now) now in
    elim (Bool-cases (leb l.max_requests e.count)) [
      | inl over ↦ (e, rw (check_rate_limit, same, over) refl)
      | inr under ↦ (record e { count = e.count + 1 }, rw (check_rate_limit, same, under) refl)
    ]

-- After a call of the address itself, whose entry was there, the rest is quiet as well.
own-IsQuiet :
    (ip who : Text) (now : ℕ) (e e' : RateLimitEntry) (m : Map RateLimitEntry)
    (calls : List (Text × ℕ))
    → get ip m ≡ some e
    → IsQuiet ip m ((who, now) ∷ calls)
    → IsQuiet ip (insert ip e' m) calls
own-IsQuiet ip who now e e' m calls there (inl room) =
    inl (ground (arith, room, length-insert ip e' m, contains_key-get ip m))
own-IsQuiet ip who now e e' m calls there (inr own) = inr own.1

pub granted_open :
    (l : RateLimiter) (ip : Text) (e : RateLimitEntry) (calls : List (Text × ℕ))
    → get ip l.entries ≡ some e
    → IsQuiet ip l.entries calls
    → All (λ c. c.1 - e.window_start < l.window_duration) calls
    → (granted l ip calls).0 ≡ min (calls_of ip calls) (l.max_requests - e.count)
unfolding granted calls_of
granted_open l ip e [] known quiet inside = omega arith
granted_open l ip e ((who, now) ∷ calls) known quiet inside = elim (Bool-cases (text_eq who ip)) [
  | inl same ↦
      subst
        (λ (w : Text).
          (granted l ip ((w, now) ∷ calls)).0
          ≡ min (calls_of ip ((w, now) ∷ calls)) (l.max_requests - e.count))
        (sym (text_eq-eq who ip same))
        (elim (Bool-cases (leb l.max_requests e.count)) [
          | inl over ↦
              let full : l.max_requests ≤ e.count = ground arith in
              let e' : RateLimitEntry = record e { last_access = now } in
              let l' : RateLimiter = record l { entries = insert ip e' l.entries } in
              rw (refuses l ip e e' now known still full, granted, text_eq_refl ip, calls_of)
                (omega (
                  arith,
                  granted_open l' ip e' calls (get-insert_self ip e' l.entries)
                      (own-IsQuiet ip who now e e' l.entries calls known quiet) inside.1,
                ))
          | inr under ↦
              let free : e.count < l.max_requests = ground arith in
              let e' : RateLimitEntry = record e { last_access = now; count = e.count + 1 } in
              let l' : RateLimiter = record l { entries = insert ip e' l.entries } in
              rw
                (
                  grants l ip e (record e { last_access = now }) now known still free,
                  granted,
                  text_eq_refl ip,
                  calls_of,
                )
                (omega (
                  arith,
                  granted_open l' ip e' calls (get-insert_self ip e' l.entries)
                      (own-IsQuiet ip who now e e' l.entries calls known quiet) inside.1,
                ))
        ])
  | inr other ↦ elim quiet [
    | inl room ↦
        let (x, stored) = roomy_call l who now (omega (arith, room)) in
        let l' : RateLimiter = record l { entries = insert who x l.entries } in
        rw (other, stored, granted, calls_of)
          (granted_open l' ip e calls (get-insert who ip x l.entries ∙ rw other known)
            (inl (ground (arith, room, length-insert who x l.entries))) inside.1)
    | inr own ↦ absurd (cc (own.0, other))
  ]
]
  where
    still : touch l.window_duration e now ≡ record e { last_access = now }
    still = touch_open l.window_duration e now inside.0
