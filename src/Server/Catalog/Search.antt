-- ===== src/Server/Catalog/Search.antt =====
-- The binary search finds the place where a list turns from `lt` to `gt`.
use Prim.Native.Nat.{Ordering}
use Prim.Native.Nat.Ordering.{lt, gt}
use native.Mathlib.Decide.{dec_lt}
use deltaship.Prelude.{
  ℕ, zero, suc, ◌+◌, ◌-◌, ◌/◌, ◌≤◌, ◌<◌, ◌≡◌, refl, some, List, [], ◌∷◌, arith, length, get_elem?,
  take, drop, All,
}
use deltaship.Server.Catalog.{binary_search, binary_search_by}

module _ {ℓ} {A : Type ℓ} (f : A → Ordering) where
  -- The first `k` elements lie before the target, the others after it.
  abbrev pub Split : ℕ → List A → Type 0
  Split k xs = (k ≤ length xs) × All (λ x. f x ≡ lt) (take k xs) × All (λ x. f x ≡ gt) (drop k xs)

  get-All :
      (o : Ordering) (xs : List A) (i : ℕ) (x : A)
      → All (λ y. f y ≡ o) xs
      → get_elem? xs i ≡ some x
      → f x ≡ o
  get-All o [] i x h e = cc
  get-All o (y ∷ ys) zero x h e = ground (arith, h.0)
  get-All o (y ∷ ys) (suc i) x h e = get-All o ys i x h.1 e

  get-some : (xs : List A) (i : ℕ) → i < length xs → (x : A) × (get_elem? xs i ≡ some x)
  get-some [] i h = absurd (omega arith)
  get-some (x ∷ xs) zero h = (x, refl)
  get-some (x ∷ xs) (suc i) h = get-some xs i (omega arith)

  below-Split :
      (k : ℕ) (xs : List A) (i : ℕ) (x : A)
      → Split k xs
      → i < k
      → get_elem? xs i ≡ some x
      → f x ≡ lt
  below-Split zero xs i x s h e = absurd (omega arith)
  below-Split (suc k) [] i x s h e = cc
  below-Split (suc k) (y ∷ ys) zero x s h e = ground (arith, s.1.0)
  below-Split (suc k) (y ∷ ys) (suc i) x s h e =
      below-Split k ys i x (omega arith, s.1.1, s.2) (omega arith) e

  above-Split :
      (k : ℕ) (xs : List A) (i : ℕ) (x : A)
      → Split k xs
      → k ≤ i
      → get_elem? xs i ≡ some x
      → f x ≡ gt
  above-Split zero xs i x s h e = get-All gt xs i x s.2 e
  above-Split (suc k) [] i x s h e = cc
  above-Split (suc k) (y ∷ ys) zero x s h e = absurd (omega arith)
  above-Split (suc k) (y ∷ ys) (suc i) x s h e =
      above-Split k ys i x (omega arith, s.1.1, s.2) (omega arith) e

  module _ (k : ℕ) (xs : List A) (s : Split k xs) where
    binary_search-split :
        (fuel left right : ℕ)
        → left ≤ k
        → k ≤ right
        → right ≤ length xs
        → right - left ≤ fuel
        → binary_search fuel f xs left right ≡ k
    unfolding binary_search
    binary_search-split zero left right p q r h = omega arith
    binary_search-split (suc fuel) left right p q r h = elim (dec_lt left right) [
      | no empty ↦ ground arith
      | yes wide ↦
          let mid = left + (right - left) / 2 in
          let (x, e) = get-some xs mid (omega arith) in
          ground (
            arith,
            e,
            below-Split k xs mid x s,
            above-Split k xs mid x s,
            binary_search-split fuel (mid + 1) right,
            binary_search-split fuel left mid,
          )
    ]

    pub binary_search_by-split : binary_search_by f xs ≡ k
    unfolding binary_search_by
    binary_search_by-split =
        binary_search-split (length xs) 0 (length xs) (omega arith) s.0 (omega arith) (omega arith)
