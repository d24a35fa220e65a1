-- ===== src/Db/Table.antt =====
-- The SQL statements of crates/deltaship-db as functions on the rows of a table, the newest first.
use mathlib.Core.Path.{fun_ext}
use deltaship.Prelude.{
  Bool-cases, inl, inr, ◌≡◌, refl, ◌∙◌, Bool, true, false, not, Option, none, some, List, [], ◌∷◌,
  arith, any, find, retain, All, if◌then◌else◌,
}

module _ {ℓ} {A : Type ℓ} where
  -- `UPDATE ... WHERE p`.
  unfoldable pub update_where : (A → Bool) → (A → A) → List A → List A
  update_where p f [] = []
  update_where p f (x ∷ xs) = (if p x then f x else x) ∷ update_where p f xs

  -- `UPDATE ... WHERE p` with `rows_affected() == 0` as `none`.
  unfoldable pub update_some : (A → Bool) → (A → A) → List A → Option (List A)
  unfolding update_where
  update_some p f xs = if any p xs then some (update_where p f xs) else none

  -- `DELETE FROM ... WHERE p`.
  unfoldable pub delete_where : (A → Bool) → List A → List A
  delete_where p = retain λ x. not (p x)

  -- A unique key: no two rows agree on it.
  abbrev pub Unique : (A → A → Bool) → List A → Type 0
  Unique same [] = Unit
  Unique same (x ∷ xs) = (any (same x) xs ≡ false) × Unique same xs

module _ {ℓ} {A : Type ℓ} where
  any-retain : (p keep : A → Bool) (xs : List A) → any p xs ≡ false → any p (retain keep xs) ≡ false
  any-retain p keep [] h = refl
  any-retain p keep (x ∷ xs) h = ground (arith, any-retain p keep xs)

  pub delete_where-Unique :
      (same : A → A → Bool) (p : A → Bool) (xs : List A)
      → Unique same xs
      → Unique same (delete_where p xs)
  unfolding delete_where
  delete_where-Unique same p [] h = tt
  delete_where-Unique same p (x ∷ xs) h =
      ground (arith, any-retain (same x) (λ y. not (p y)) xs, delete_where-Unique same p xs)

module _ {ℓ} {A : Type ℓ} (p : A → Bool) (f : A → A) where
  -- A search by what the update does not touch finds as much as before.
  pub any-update_where :
      (q : A → Bool)
      → ((x : A) → q (f x) ≡ q x)
      → (xs : List A) → any q (update_where p f xs) ≡ any q xs
  unfolding update_where
  any-update_where q keep [] = refl
  any-update_where q keep (x ∷ xs) = ground (arith, keep x, any-update_where q keep xs)

  pub find-update_where :
      (q : A → Bool)
      → ((x : A) → q (f x) ≡ q x)
      → (xs : List A)
      → find q (update_where p f xs)
        ≡ (elim (find q xs) [ none ↦ none | some x ↦ some (if p x then f x else x) ])
  unfolding update_where
  find-update_where q keep [] = refl
  find-update_where q keep (x ∷ xs) = ground (arith, keep x, find-update_where q keep xs)

  pub update_where-Unique :
      (same : A → A → Bool)
      → ((x y : A) → same (f x) y ≡ same x y)
      → ((x y : A) → same x (f y) ≡ same x y)
      → (xs : List A) → Unique same xs
      → Unique same (update_where p f xs)
  unfolding update_where
  update_where-Unique same left right [] h = tt
  update_where-Unique same left right (x ∷ xs) h = (
    any-update_where (same (if p x then f x else x)) (right (if p x then f x else x)) xs
        ∙ row (p x),
    update_where-Unique same left right xs h.1,
  )
    where
      row : (b : Bool) → any (same (if b then f x else x)) xs ≡ false
      row true = rw (fun_ext (left x)) h.0
      row false = h.0

  pub All-update_where {κ} :
      (P : A → Type κ)
      → ((x : A) → p x ≡ true → P x → P (f x))
      → (xs : List A) → All P xs
      → All P (update_where p f xs)
  unfolding update_where
  All-update_where P step [] h = tt
  All-update_where P step (x ∷ xs) h = (row (p x) refl, All-update_where P step xs h.1)
    where
      row : (b : Bool) → p x ≡ b → P (if b then f x else x)
      row true e = step x e h.0
      row false e = h.0

pub update_some-eq-some {ℓ} :
    {A : Type ℓ} (p : A → Bool) (f : A → A) (xs : List A) {ys : List A}
    → update_some p f xs ≡ some ys
    → update_where p f xs ≡ ys
unfolding update_some
update_some-eq-some p f xs h = ground arith

pub update_some-found {ℓ} :
    {A : Type ℓ} (p : A → Bool) (f : A → A) (xs : List A) {ys : List A}
    → update_some p f xs ≡ some ys
    → any p xs ≡ true
unfolding update_some
update_some-found p f xs h = ground arith

-- What is searched for is not deleted.
pub any-delete_where {ℓ} :
    {A : Type ℓ} (q p : A → Bool)
    → ((x : A) → q x ≡ true → p x ≡ false)
    → (xs : List A) → any q (delete_where p xs) ≡ any q xs
unfolding delete_where
any-delete_where q p apart [] = refl
any-delete_where q p apart (x ∷ xs) = ground (arith, apart x, any-delete_where q p apart xs)

pub All-delete_where {ℓ κ μ} :
    {A : Type ℓ} (P : A → Type κ) (Q : A → Type μ) (p : A → Bool)
    → ((x : A) → p x ≡ false → P x → Q x)
    → (xs : List A) → All P xs
    → All Q (delete_where p xs)
unfolding delete_where
All-delete_where P Q p left [] h = tt
All-delete_where P Q p left (x ∷ xs) h = elim (Bool-cases (p x)) [
  | inl deleted ↦ rw deleted (All-delete_where P Q p left xs h.1)
  | inr kept ↦ rw kept (left x kept h.0, All-delete_where P Q p left xs h.1)
]
