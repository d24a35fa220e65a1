-- ===== src/Server/Eviction.antt =====
-- crates/deltaship-server/src/rate_limit.rs: the sampled eviction that both limiters make when
-- their table is full. Times are numbers; `duration_since` is 0 for a later time, as `-` is.
pub mod Bounds
use deltaship.Prelude.{
  ℕ, zero, suc, ◌+◌, ◌*◌, ◌≤◌, ◌<◌, ◌≡◌, ◌≢◌, refl, Bool, true, false, Option, none, some, List, [],
  ◌∷◌, map, arith, min, length, take, retain, All, leb, if◌then◌else◌, subst,
}
use deltaship.Prelude.Text.{Text, text_eq, text_eq_iff, text_eq_refl}
use deltaship.Prelude.Map.{
  Map, get, contains_key, remove, get-remove, length-remove, length-remove-lt,
}

abbrev pub max_entries : ℕ
max_entries = 100_000

abbrev pub lru_eviction_count : ℕ
lru_eviction_count = 10_000

abbrev pub Candidate : Type 0
Candidate = Text × ℕ

-- `candidates.sort_by_key(|(_, t)| *t)`, a stable sort.
insert_sorted : Candidate → List Candidate → List Candidate
insert_sorted c [] = c ∷ []
insert_sorted c (d ∷ ds) = if leb c.1 d.1 then c ∷ d ∷ ds else d ∷ insert_sorted c ds

unfoldable pub sort_by_time : List Candidate → List Candidate
unfolding insert_sorted
sort_by_time [] = []
sort_by_time (c ∷ cs) = insert_sorted c (sort_by_time cs)

module _ {ℓ} {V : Type ℓ} where
  -- `for (ip, _) in candidates { entries.remove(&ip); }`
  unfoldable pub remove_all : List Candidate → Map V → Map V
  remove_all [] m = m
  remove_all (c ∷ cs) m = remove_all cs (remove c.0 m)

  -- The entries that may go, with the time of their last access.
  unfoldable pub candidates : (V → Bool) → (V → ℕ) → ℕ → Map V → List Candidate
  candidates evictable last_access sample m =
      map (λ e. (e.0, last_access e.1)) (take sample (retain (λ e. evictable e.1) m))

  -- The oldest `evict` of a sample of the entries that may go are removed.
  unfoldable pub evict_sampled : (V → Bool) → (V → ℕ) → Map V → Map V
  evict_sampled evictable last_access m =
      let evict = min lru_eviction_count (length m) in
      let sample = min (evict * 4) (length m) in
      remove_all (take evict (sort_by_time (candidates evictable last_access sample m))) m
