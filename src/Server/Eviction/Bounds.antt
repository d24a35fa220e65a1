-- ===== src/Server/Eviction/Bounds.antt =====
-- What an eviction takes from the table, and what it must leave.
use deltaship.Prelude.{
  ℕ, zero, suc, ◌*◌, ◌≤◌, ◌<◌, ◌≡◌, refl, Bool, true, false, some, List, [], ◌∷◌, map, arith, min,
  length, take, retain, All, leb, All-take, All-retain, All-map, All-mono, inl, inr, Bool-cases,
  ◌∙◌, ap, length-take,
}
use deltaship.Prelude.Text.{Text, text_eq, text_eq_refl, text_eq-eq}
use deltaship.Prelude.Map.{
  Map, IsMap, get, contains_key, remove, get-remove, length-remove, length-remove-lt, remove-IsMap,
  contains_key-remove,
}
use deltaship.Server.Eviction.{
  Candidate, lru_eviction_count, insert_sorted, sort_by_time, remove_all, candidates, evict_sampled,
}

module _ (P : Candidate → Type 0) where
  All-insert_sorted :
      (c : Candidate) (cs : List Candidate) → P c → All P cs → All P (insert_sorted c cs)
  unfolding insert_sorted
  All-insert_sorted c [] h k = (h, tt)
  All-insert_sorted c (d ∷ ds) h k = elim (Bool-cases (leb c.1 d.1)) [
    | inl e ↦ rw (e, insert_sorted) (h, k)
    | inr e ↦ rw (e, insert_sorted) (k.0, All-insert_sorted c ds h k.1)
  ]

  All-sort_by_time : (cs : List Candidate) → All P cs → All P (sort_by_time cs)
  unfolding sort_by_time
  All-sort_by_time [] h = tt
  All-sort_by_time (c ∷ cs) h = All-insert_sorted c (sort_by_time cs) h.0 (All-sort_by_time cs h.1)

module _ {ℓ} {V : Type ℓ} where
  remove_all-IsMap : (cs : List Candidate) (m : Map V) → IsMap m → IsMap (remove_all cs m)
  unfolding remove_all
  remove_all-IsMap [] m h = h
  remove_all-IsMap (c ∷ cs) m h = remove_all-IsMap cs (remove c.0 m) (remove-IsMap c.0 m h)

  length-remove_all : (cs : List Candidate) (m : Map V) → length (remove_all cs m) ≤ length m
  unfolding remove_all
  length-remove_all [] m = omega arith
  length-remove_all (c ∷ cs) m =
      omega (arith, length-remove_all cs (remove c.0 m), length-remove c.0 m)

  -- A key that no candidate names is left alone.
  get-remove_all :
      (j : Text) (cs : List Candidate) (m : Map V)
      → All (λ c. text_eq c.0 j ≡ false) cs
      → get j (remove_all cs m) ≡ get j m
  unfolding remove_all
  get-remove_all j [] m h = refl
  get-remove_all j (c ∷ cs) m h =
      ground (arith, get-remove_all j cs (remove c.0 m) h.1, get-remove c.0 j m)

  absent_keys :
      (j : Text) (m : Map V) → contains_key j m ≡ false → All (λ e. text_eq e.0 j ≡ false) m
  unfolding contains_key
  absent_keys j [] h = tt
  absent_keys j ((i, v) ∷ m) h = ground (arith, absent_keys j m)

  module _ (evictable : V → Bool) (last_access : V → ℕ) where
    kept_keys :
        (j : Text) (v : V) (m : Map V)
        → IsMap m
        → get j m ≡ some v
        → evictable v ≡ false
        → All (λ e. text_eq e.0 j ≡ false) (retain (λ e. evictable e.1) m)
    unfolding get
    kept_keys j v [] d h k = tt
    kept_keys j v ((i, w) ∷ m) d h k = elim (Bool-cases (text_eq i j)) [
      | inl same ↦
          let gone : evictable w ≡ false = ground arith in
          let absent : contains_key j m ≡ false = rw (← text_eq-eq i j same) d.0 in
          rw (gone) (All-retain _ (λ e. evictable e.1) m (absent_keys j m absent))
      | inr other ↦ elim (Bool-cases (evictable w)) [
        | inl e ↦ rw e (other, kept_keys j v m d.1 (ground arith) k)
        | inr e ↦ rw e (kept_keys j v m d.1 (ground arith) k)
      ]
    ]

    -- An entry that must not go stays through an eviction.
    pub get-evict_sampled :
        (j : Text) (v : V) (m : Map V)
        → IsMap m
        → get j m ≡ some v
        → evictable v ≡ false
        → get j (evict_sampled evictable last_access m) ≡ some v
    unfolding evict_sampled candidates
    get-evict_sampled j v m d h k =
        get-remove_all j _ m (
          All-take _ (min lru_eviction_count (length m)) _
            (All-sort_by_time _ _ (All-map _ _ _ (All-take _ _ _ (kept_keys j v m d h k)))))
        ∙ h

    pub evict_sampled-IsMap : (m : Map V) → IsMap m → IsMap (evict_sampled evictable last_access m)
    unfolding evict_sampled
    evict_sampled-IsMap m h = remove_all-IsMap _ m h

    pub length-evict_sampled :
        (m : Map V) → length (evict_sampled evictable last_access m) ≤ length m
    unfolding evict_sampled
    length-evict_sampled m = length-remove_all _ m

  keys_contained : (m : Map V) → All (λ e. contains_key e.0 m ≡ true) m
  unfolding contains_key
  keys_contained [] = tt
  keys_contained (e ∷ m) =
      (rw (text_eq_refl e.0), All-mono _ _ (λ d h. ground arith) m (keys_contained m))

  length-remove_all-lt :
      (c : Candidate) (cs : List Candidate) (m : Map V)
      → contains_key c.0 m ≡ true
      → length (remove_all (c ∷ cs) m) < length m
  unfolding remove_all
  length-remove_all-lt c cs m h =
      omega (arith, length-remove_all cs (remove c.0 m), length-remove-lt c.0 m h)

  length-remove_all-take :
      (n : ℕ) (cs : List Candidate) (m : Map V)
      → 0 < n
      → 0 < length cs
      → All (λ c. contains_key c.0 m ≡ true) cs
      → length (remove_all (take n cs) m) < length m
  length-remove_all-take zero cs m p q h = absurd (omega arith)
  length-remove_all-take (suc n) [] m p q h = absurd (omega arith)
  length-remove_all-take (suc n) (c ∷ cs) m p q h = length-remove_all-lt c (take n cs) m h.0

  retain_all : (p : Text × V → Bool) → ((e : Text × V) → p e ≡ true) → (m : Map V) → retain p m ≡ m
  retain_all p h [] = refl
  retain_all p h (e ∷ m) = rw (h e) (ap (◌∷◌ e) (retain_all p h m))

length-insert_sorted :
    (c : Candidate) (cs : List Candidate) → length (insert_sorted c cs) ≡ suc (length cs)
unfolding insert_sorted
length-insert_sorted c [] = refl
length-insert_sorted c (d ∷ ds) = ground (arith, length-insert_sorted c ds)

length-sort_by_time : (cs : List Candidate) → length (sort_by_time cs) ≡ length cs
unfolding sort_by_time
length-sort_by_time [] = refl
length-sort_by_time (c ∷ cs) =
    omega (arith, length-insert_sorted c (sort_by_time cs), length-sort_by_time cs)

length-map {ℓ κ} :
    {A : Type ℓ} {B : Type κ} (f : A → B) (xs : List A) → length (map f xs) ≡ length xs
length-map f [] = refl
length-map f (x ∷ xs) = ap suc (length-map f xs)

module _ {ℓ} {V : Type ℓ} (evictable : V → Bool) (last_access : V → ℕ)
    (free : (v : V) → evictable v ≡ true) where
  -- Where every entry may go, an eviction makes room.
  pub length-evict_sampled-lt :
      (m : Map V) → 0 < length m → length (evict_sampled evictable last_access m) < length m
  unfolding evict_sampled candidates
  length-evict_sampled-lt m h = rw (retain_all (λ e. evictable e.1) (λ e. free e.1) m) (
      length-remove_all-take (min lru_eviction_count (length m)) (sort_by_time cs) m (omega arith)
        (omega (
          arith,
          length-sort_by_time cs,
          length-map {B = Candidate} (λ (e : Text × V). (e.0, last_access e.1)) (take sample m),
          length-take sample m,
        ))
        (All-sort_by_time _ cs (All-map _ _ _ (All-take _ _ _ (keys_contained m)))))
    where
      sample : ℕ
      sample = min (min lru_eviction_count (length m) * 4) (length m)

      cs : List Candidate
      cs = map (λ e. (e.0, last_access e.1)) (take sample m)

module _ {ℓ} {V : Type ℓ} where
  absent-remove_all :
      (j : Text) (cs : List Candidate) (m : Map V)
      → contains_key j m ≡ false
      → contains_key j (remove_all cs m) ≡ false
  unfolding remove_all
  absent-remove_all j [] m h = h
  absent-remove_all j (c ∷ cs) m h =
      absent-remove_all j cs (remove c.0 m) (ground (arith, contains_key-remove c.0 j m))

  -- An eviction adds no address.
  pub absent-evict_sampled :
      (evictable : V → Bool) (last_access : V → ℕ) (j : Text) (m : Map V)
      → contains_key j m ≡ false
      → contains_key j (evict_sampled evictable last_access m) ≡ false
  unfolding evict_sampled
  absent-evict_sampled evictable last_access j m h = absent-remove_all j _ m h
