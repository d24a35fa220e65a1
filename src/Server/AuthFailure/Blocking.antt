-- ===== src/Server/AuthFailure/Blocking.antt =====
-- Which addresses are locked out, after failures and successes of any address.
use deltaship.Prelude.{
  ℕ, ◌+◌, ◌-◌, ◌≤◌, ◌<◌, ◌≡◌, refl, true, false, not, none, some, arith, leb, ltb, if◌then◌else◌,
  retain, inl, inr, Bool-cases, Option-cases, ◌∙◌,
}
use deltaship.Prelude.Text.{Text, text_eq, text_eq_refl, text_eq_iff}
use deltaship.Prelude.Map.{
  Map, IsMap, get, contains_key-get, insert, get-insert, get-remove, get-retain, retain-IsMap,
  insert-IsMap, remove-IsMap,
}
use deltaship.Server.Eviction.Bounds.{get-evict_sampled, evict_sampled-IsMap}
use deltaship.Server.AuthFailure.{
  AuthFailureEntry, auth_failure_threshold, max_auth_backoff_seconds, from_secs, u32_range,
  in_backoff, evictable, cleanup_expired_entries, evict_when_full, make_room, entry_or,
  count_failure, fail_entry, record_failure, record_success, is_blocked,
}
use deltaship.Server.AuthFailure.Backoff.{backoff_seconds_exact, backoff_seconds_wraps, pow-pos}

evictable-in_backoff :
    (now : ℕ) (e : AuthFailureEntry) → in_backoff now e ≡ true → evictable now e ≡ false
evictable-in_backoff now e h = ground arith

-- An entry in its backoff stays, however full the table is.
get-make_room :
    (m : Map AuthFailureEntry) (ip j : Text) (e : AuthFailureEntry) (now : ℕ)
    → IsMap m
    → get j m ≡ some e
    → in_backoff now e ≡ true
    → get j (make_room m ip now) ≡ some e
unfolding make_room evict_when_full cleanup_expired_entries
get-make_room m ip j e now d h active =
    let keep = λ (f : AuthFailureEntry).
      if in_backoff now f
      then true
      else ltb (now - f.last_access) (from_secs max_auth_backoff_seconds) in
    let live = retain (λ (f : Text × AuthFailureEntry). keep f.1) m in
    ground (
      arith,
      get-retain keep j e m h (rw active refl),
      get-evict_sampled (evictable now) (λ e. e.last_access) j e live
          (retain-IsMap (λ (f : Text × AuthFailureEntry). keep f.1) m d)
          (get-retain keep j e m h (rw active refl)) (evictable-in_backoff now e active),
    )

make_room-IsMap :
    (m : Map AuthFailureEntry) (ip : Text) (now : ℕ) → IsMap m → IsMap (make_room m ip now)
unfolding make_room evict_when_full cleanup_expired_entries
make_room-IsMap m ip now d =
    let keep = λ (f : Text × AuthFailureEntry).
      if in_backoff now f.1
      then true
      else ltb (now - f.1.last_access) (from_secs max_auth_backoff_seconds) in
    ground (
      arith,
      retain-IsMap keep m d,
      evict_sampled-IsMap (evictable now) (λ e. e.last_access) (retain keep m)
          (retain-IsMap keep m d),
    )

get-fail :
    (m : Map AuthFailureEntry) (ip j : Text) (now : ℕ)
    → get j (record_failure m ip now).0 ≡ (
        if text_eq ip j
        then some (fail_entry (entry_or (get ip (make_room m ip now)) now) now).0
        else get j (make_room m ip now))
unfolding record_failure
get-fail m ip j now = get-insert ip j _ (make_room m ip now)

pub record_failure-IsMap :
    (m : Map AuthFailureEntry) (ip : Text) (now : ℕ) → IsMap m → IsMap (record_failure m ip now).0
unfolding record_failure
record_failure-IsMap m ip now d =
    insert-IsMap ip _ (make_room m ip now) (make_room-IsMap m ip now d)

pub record_success-IsMap :
    (m : Map AuthFailureEntry) (ip : Text) (now : ℕ) → IsMap m → IsMap (record_success m ip now)
unfolding record_success
record_success-IsMap m ip now d = elim (Option-cases (get ip m)) [
  | inl e ↦ rw (e, record_success) d
  | inr (f, e) ↦
      rw (e, record_success)
        (ground (
          arith,
          remove-IsMap ip m d,
          insert-IsMap ip
              (record {
                failure_count = f.failure_count - 1;
                backoff_until = none;
                last_access = now;
              })
              m d,
        ))
]

-- A lockout cannot be flushed: while an address is locked out, no failure of any address, itself
-- included, ends the lockout or changes when it ends, however full the table is.
pub record_failure_keeps_backoff :
    (m : Map AuthFailureEntry) (ip j : Text) (e : AuthFailureEntry) (now : ℕ)
    → IsMap m
    → get j m ≡ some e
    → in_backoff now e ≡ true
    → (f : AuthFailureEntry) × (get j (record_failure m ip now).0 ≡ some f)
      × (f.backoff_until ≡ e.backoff_until)
      × (f.failure_count ≡ e.failure_count)
unfolding fail_entry
record_failure_keeps_backoff m ip j e now d h active =
    let kept = get-make_room m ip j e now d h active in
    elim (Bool-cases (text_eq ip j)) [
      | inl same ↦
          let at_ip : get ip (make_room m ip now) ≡ some e =
            ground (arith, kept, text_eq_iff ip j) in
          (
            record e { last_access = now },
            get-fail m ip j now ∙ rw (same, at_ip) (ground arith),
            refl,
            refl,
          )
      | inr other ↦ (e, get-fail m ip j now ∙ rw (other) kept, refl, refl)
    ]

-- The answer to a failure of an address that is not locked out, and its entry after it.
record_failure_known :
    (m : Map AuthFailureEntry) (ip : Text) (e : AuthFailureEntry) (now : ℕ)
    → get ip m ≡ some e
    → in_backoff now e ≡ false
    → record_failure m ip now ≡ (
      insert ip (count_failure (record e { last_access = now }) now).0 m,
      (count_failure (record e { last_access = now }) now).1,
    )
unfolding record_failure fail_entry
record_failure_known m ip e now h idle =
    let room : make_room m ip now ≡ m = unfold make_room in ground (arith, contains_key-get ip m) in
    rw (room, h) (ground arith)

is_blocked-insert :
    (m : Map AuthFailureEntry) (ip : Text) (e : AuthFailureEntry) (later : ℕ)
    → is_blocked (insert ip e m) ip later ≡ in_backoff later e
unfolding is_blocked
is_blocked-insert m ip e later = rw (get-insert ip ip e m, text_eq_refl ip, is_blocked)

-- What a failure does to an address that has failed before, fewer than 63 times, and is not locked
-- out at the time: if it had failed four times or more, the failure locks it out for a minute at
-- least and the request is refused, else the address is not locked out in that minute and the
-- request is let through.
pub record_failure_blocks :
    (m : Map AuthFailureEntry) (ip : Text) (e : AuthFailureEntry) (now later : ℕ)
    → get ip m ≡ some e
    → in_backoff now e ≡ false
    → e.failure_count < 63
    → now ≤ later
    → later < now + from_secs 60
    → (is_blocked (record_failure m ip now).0 ip later ≡ leb 4 e.failure_count)
      × ((record_failure m ip now).1 ≡ not (leb 4 e.failure_count))
unfolding count_failure
record_failure_blocks m ip e now later h idle few p q =
    let n = e.failure_count + 1 - auth_failure_threshold in
    rw
      (
        record_failure_known m ip e now h idle,
        is_blocked-insert m ip (count_failure (record e { last_access = now }) now).0 later,
      )
      (ground (arith, backoff_seconds_exact n, pow-pos n))

-- After 66 failures the lockout has no length: an address with so many counted failures, whose
-- last lockout is over, is not locked out by the next one, at no time from that failure on. The
-- count is assumed not to wrap.
pub record_failure_unblocked :
    (m : Map AuthFailureEntry) (ip : Text) (e : AuthFailureEntry) (now later : ℕ)
    → get ip m ≡ some e
    → in_backoff now e ≡ false
    → 66 ≤ e.failure_count
    → e.failure_count + 1 < u32_range
    → now ≤ later
    → is_blocked (record_failure m ip now).0 ip later ≡ false
unfolding count_failure
record_failure_unblocked m ip e now later h idle many fits p =
    rw
      (
        record_failure_known m ip e now h idle,
        is_blocked-insert m ip (count_failure (record e { last_access = now }) now).0 later,
      )
      (ground (arith, backoff_seconds_wraps (e.failure_count + 1 - auth_failure_threshold)))

-- A success of an address takes one of its failures away, forgets the address if none is left, and
-- ends its lockout; another address `j` keeps its entry.
pub record_success_lem :
    (m : Map AuthFailureEntry) (ip j : Text) (f : AuthFailureEntry) (now later : ℕ)
    → get ip m ≡ some f
    → text_eq ip j ≡ false
    → (get ip (record_success m ip now) ≡ (
        if leb f.failure_count 1
        then none
        else some (record {
          failure_count = f.failure_count - 1;
          backoff_until = none;
          last_access = now;
        })))
      × (is_blocked (record_success m ip now) ip later ≡ false)
      × (get j (record_success m ip now) ≡ get j m)
unfolding record_success is_blocked
record_success_lem m ip j f now later e other =
    let f' : AuthFailureEntry = record {
      failure_count = f.failure_count - 1;
      backoff_until = none;
      last_access = now;
    } in
    rw (e, record_success)
      (ground (
        arith,
        get-remove ip ip m,
        get-remove ip j m,
        get-insert ip ip f' m,
        get-insert ip j f' m,
        text_eq_refl ip,
      ))
