-- ===== src/Prelude/Lists.antt =====
-- Tuples of the program are lists: membership, subsets, duplicates and generator expressions.
use Prim.Native.Nat.{ℕ, suc}
use mathlib.Core.Bool.{Bool, true, false, not, ◌&&◌, ◌||◌}
use mathlib.Core.Path.{◌≡◌, refl}
use mathlib.Core.Logic.{◌⊎◌, inl, inr}
use mathlib.Core.List.{List, [], ◌∷◌, ◌++◌, map}
use native.Mathlib.Omega.{arith}
use x_sync.Prelude.Tests.{if◌then◌else◌}
use x_sync.Prelude.Equality.{Eq, ◌==◌}

module _ {ℓ} {A : Type ℓ} where
  abbrev pub length : List A → ℕ
  length [] = 0
  length (x ∷ xs) = suc (length xs)

  -- `all(p(x) for x in xs)`.
  unfoldable pub all : (A → Bool) → List A → Bool
  all p [] = true
  all p (x ∷ xs) = p x && all p xs

  -- `any(p(x) for x in xs)`.
  unfoldable pub any : (A → Bool) → List A → Bool
  any p [] = false
  any p (x ∷ xs) = p x || any p xs

  -- `tuple(x for x in xs if p(x))`.
  unfoldable pub keep : (A → Bool) → List A → List A
  keep p [] = []
  keep p (x ∷ xs) = let rest = keep p xs in if p x then x ∷ rest else rest

  abbrev pub is_empty : List A → Bool
  is_empty [] = true
  is_empty (x ∷ xs) = false

module _ {ℓ} {A : Type ℓ} ⦃e : Eq A⦄ where
  -- `x in xs`.
  unfoldable pub has : A → List A → Bool
  has x [] = false
  has x (y ∷ ys) = (x == y) || has x ys

  -- `set(xs).issubset(ys)`.
  unfoldable pub is_subset : List A → List A → Bool
  is_subset xs ys = all (λ x. has x ys) xs

  -- `len(xs) == len(set(xs))`.
  unfoldable pub is_distinct : List A → Bool
  is_distinct [] = true
  is_distinct (x ∷ xs) = not (has x xs) && is_distinct xs

module _ {A : Type 0} where
  pub all_mono :
      (p q : A → Bool) (xs : List A)
      → ((x : A) → p x ≡ true → q x ≡ true)
      → all p xs ≡ true
      → all q xs ≡ true
  unfolding all
  all_mono p q [] k h = refl
  all_mono p q (x ∷ xs) k h = ground (arith, k x, all_mono p q xs k)

  pub all-append : (p : A → Bool) (xs ys : List A) → all p (xs ++ ys) ≡ all p xs && all p ys
  unfolding all
  all-append p [] ys = refl
  all-append p (x ∷ xs) ys = ground (arith, all-append p xs ys)

  pub all-keep : (p q : A → Bool) (xs : List A) → all p xs ≡ true → all p (keep q xs) ≡ true
  unfolding all keep
  all-keep p q [] h = refl
  all-keep p q (x ∷ xs) h = ground (arith, all-keep p q xs)

  pub all-map :
      {B : Type 0} (p : B → Bool) (q : A → Bool) (f : A → B) (xs : List A)
      → ((x : A) → q x ≡ true → p (f x) ≡ true)
      → all q xs ≡ true
      → all p (map f xs) ≡ true
  unfolding all
  all-map p q f [] k h = refl
  all-map p q f (x ∷ xs) k h = ground (arith, k x, all-map p q f xs k)

pub List-cases {ℓ} :
    {A : Type ℓ} (xs : List A) → (xs ≡ []) ⊎ ((y : A) × (ys : List A) × (xs ≡ y ∷ ys))
List-cases [] = inl refl
List-cases (y ∷ ys) = inr (y, ys, refl)
