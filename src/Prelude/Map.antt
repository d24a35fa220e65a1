-- ===== src/Prelude/Map.antt =====
-- `HashMap<String, V>` as an association list. The list's order stands for the order in which the
-- map iterates, which the program must not rely on.
use deltaship.Prelude.{
  suc, ◌≤◌, ◌<◌, ◌≡◌, refl, Bool, true, false, Option, none, some, List, [], ◌∷◌, arith, length,
  retain, if◌then◌else◌,
}
use deltaship.Prelude.Text.{Text, text_eq, text_eq_iff}

abbrev pub Map {ℓ} : Type ℓ → Type ℓ
Map V = List (Text × V)

module _ {ℓ} {V : Type ℓ} where
  unfoldable pub get : Text → Map V → Option V
  get k [] = none
  get k ((j, v) ∷ m) = if text_eq j k then some v else get k m

  unfoldable pub contains_key : Text → Map V → Bool
  contains_key k [] = false
  contains_key k ((j, v) ∷ m) = if text_eq j k then true else contains_key k m

  unfoldable pub insert : Text → V → Map V → Map V
  insert k v [] = (k, v) ∷ []
  insert k v ((j, w) ∷ m) = if text_eq j k then (k, v) ∷ m else (j, w) ∷ insert k v m

  unfoldable pub remove : Text → Map V → Map V
  remove k [] = []
  remove k ((j, v) ∷ m) = if text_eq j k then remove k m else (j, v) ∷ remove k m

  pub get-insert :
      (k j : Text) (v : V) (m : Map V)
      → get j (insert k v m) ≡ (if text_eq k j then some v else get j m)
  unfolding get insert
  get-insert k j v [] = refl
  get-insert k j v ((i, w) ∷ m) =
      ground (arith, text_eq_iff k j, text_eq_iff i k, text_eq_iff i j, get-insert k j v m)

  pub get-remove :
      (k j : Text) (m : Map V) → get j (remove k m) ≡ (if text_eq k j then none else get j m)
  unfolding get remove
  get-remove k j [] = ground arith
  get-remove k j ((i, w) ∷ m) =
      ground (arith, text_eq_iff k j, text_eq_iff i k, text_eq_iff i j, get-remove k j m)

  pub contains_key-get :
      (k : Text) (m : Map V) → contains_key k m ≡ (elim (get k m) [ none ↦ false | some _ ↦ true ])
  unfolding get contains_key
  contains_key-get k [] = refl
  contains_key-get k ((j, v) ∷ m) = ground (arith, contains_key-get k m)

  -- A new key makes the map longer by one, an old key leaves its length.
  pub length-insert :
      (k : Text) (v : V) (m : Map V)
      → length (insert k v m) ≡ (if contains_key k m then length m else suc (length m))
  unfolding insert contains_key
  length-insert k v [] = refl
  length-insert k v ((j, w) ∷ m) = ground (arith, length-insert k v m)

  pub length-remove : (k : Text) (m : Map V) → length (remove k m) ≤ length m
  unfolding remove
  length-remove k [] = omega arith
  length-remove k ((j, v) ∷ m) = ground (arith, length-remove k m)

  pub length-remove-lt :
      (k : Text) (m : Map V) → contains_key k m ≡ true → length (remove k m) < length m
  unfolding remove contains_key
  length-remove-lt k [] h = absurd (cc)
  length-remove-lt k ((j, v) ∷ m) h = ground (arith, length-remove k m, length-remove-lt k m)

  -- What `retain` keeps of a key, if its value passes the test.
  pub get-retain :
      (p : V → Bool) (k : Text) (v : V) (m : Map V)
      → get k m ≡ some v
      → p v ≡ true
      → get k (retain (λ e. p e.1) m) ≡ some v
  unfolding get
  get-retain p k v [] h q = absurd (cc)
  get-retain p k v ((j, w) ∷ m) h q = ground (arith, get-retain p k v m)

  -- Each key stands once.
  abbrev pub IsMap : Map V → Type 0
  IsMap [] = Unit
  IsMap (e ∷ m) = (contains_key e.0 m ≡ false) × IsMap m

  pub contains_key-insert :
      (k j : Text) (v : V) (m : Map V)
      → contains_key j (insert k v m) ≡ (if text_eq k j then true else contains_key j m)
  contains_key-insert k j v m =
      ground (arith, contains_key-get j (insert k v m), contains_key-get j m, get-insert k j v m)

  pub contains_key-remove :
      (k j : Text) (m : Map V)
      → contains_key j (remove k m) ≡ (if text_eq k j then false else contains_key j m)
  contains_key-remove k j m =
      ground (arith, contains_key-get j (remove k m), contains_key-get j m, get-remove k j m)

  pub contains_key-retain :
      (p : Text × V → Bool) (k : Text) (m : Map V)
      → contains_key k m ≡ false
      → contains_key k (retain p m) ≡ false
  unfolding contains_key
  contains_key-retain p k [] h = refl
  contains_key-retain p k ((j, v) ∷ m) h = ground (arith, contains_key-retain p k m)

  pub insert-IsMap : (k : Text) (v : V) (m : Map V) → IsMap m → IsMap (insert k v m)
  unfolding insert
  insert-IsMap k v [] h = (unfold contains_key in refl, tt)
  insert-IsMap k v ((j, w) ∷ m) h =
      ground
        (arith, text_eq_iff j k, text_eq_iff k j, contains_key-insert k j v m, insert-IsMap k v m)

  pub remove-IsMap : (k : Text) (m : Map V) → IsMap m → IsMap (remove k m)
  unfolding remove
  remove-IsMap k [] h = tt
  remove-IsMap k ((j, v) ∷ m) h = ground (arith, contains_key-remove k j m, remove-IsMap k m)

  pub retain-IsMap : (p : Text × V → Bool) (m : Map V) → IsMap m → IsMap (retain p m)
  retain-IsMap p [] h = tt
  retain-IsMap p ((j, v) ∷ m) h = ground (arith, contains_key-retain p j m, retain-IsMap p m)
