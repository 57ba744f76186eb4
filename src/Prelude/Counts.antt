-- ===== src/Prelude/Counts.antt =====
-- Distinct lists by counting, and subsets.
use Prim.Native.Nat.{ℕ, suc, ◌+◌, ◌≤◌}
use mathlib.Core.Path.{◌≡◌, refl}
use mathlib.Core.Bool.{true, false}
use mathlib.Core.List.{List, [], ◌∷◌, ◌++◌}
use native.Mathlib.Omega.{arith}
use x_sync.Prelude.Tests.{if◌then◌else◌}
use x_sync.Prelude.Equality.{Eq, ◌==◌}
use x_sync.Prelude.Lists.{all, has, is_distinct, is_subset, all_mono}

module _ {A : Type 0} ⦃e : Eq A⦄ where
  abbrev pub count : A → List A → ℕ
  count x [] = 0
  count x (y ∷ ys) = let rest = count x ys in if x == y then suc rest else rest

  pub count-append : (x : A) (xs ys : List A) → count x (xs ++ ys) ≡ count x xs + count x ys
  count-append x [] ys = omega arith
  count-append x (y ∷ xs) ys = ground (arith, count-append x xs ys)

  pub has-count : (x : A) (xs : List A) → has x xs ≡ true → 1 ≤ count x xs
  unfolding has
  has-count x [] h = ground arith
  has-count x (y ∷ ys) h = ground (arith, has-count x ys)

  pub count-has : (x : A) (xs : List A) → has x xs ≡ false → count x xs ≡ 0
  unfolding has
  count-has x [] h = refl
  count-has x (y ∷ ys) h = ground (arith, count-has x ys)

  pub has-eq-false : (x : A) (xs : List A) → count x xs ≡ 0 → has x xs ≡ false
  unfolding has
  has-eq-false x [] h = refl
  has-eq-false x (y ∷ ys) h = ground (arith, has-eq-false x ys)

  pub distinct-count : (x : A) (xs : List A) → is_distinct xs ≡ true → count x xs ≤ 1
  unfolding is_distinct
  distinct-count x [] d = omega arith
  distinct-count x (y ∷ ys) d = ground (arith, distinct-count x ys, count-has y ys)

  pub count-distinct : (xs : List A) → ((x : A) → count x xs ≤ 1) → is_distinct xs ≡ true
  unfolding is_distinct
  count-distinct [] k = refl
  count-distinct (y ∷ ys) k =
      ground (arith, k y, has-eq-false y ys, count-distinct ys (λ x. ground (arith, k x)))

  pub subset_refl :
      (xs ys : List A) → ((x : A) → has x xs ≡ true → has x ys ≡ true) → is_subset xs ys ≡ true
  unfolding is_subset all has
  subset_refl [] ys k = refl
  subset_refl (x ∷ xs) ys k = ground (arith, k x, subset_refl xs ys (λ z h. k z (ground arith)))

  pub subset_mono :
      (xs ys zs : List A)
      → ((x : A) → has x ys ≡ true → has x zs ≡ true)
      → is_subset xs ys ≡ true
      → is_subset xs zs ≡ true
  unfolding is_subset
  subset_mono xs ys zs k h = all_mono (λ x. has x ys) (λ x. has x zs) xs k h
