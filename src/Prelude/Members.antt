-- ===== src/Prelude/Members.antt =====
-- Members of a list, as a relation and as the test `has`.
use mathlib.Core.Path.{◌≡◌, refl, ap}
use mathlib.Core.Logic.{◌⊎◌, inl, inr}
use mathlib.Core.Bool.{Bool, true, ◌||◌}
use mathlib.Core.List.{List, [], ◌∷◌, ◌++◌, map}
use native.Mathlib.Omega.{arith}
use x_sync.Prelude.Tests.{Bool-cases}
use x_sync.Prelude.Equality.{Eq}
use x_sync.Prelude.Lists.{has, keep}

-- An element of a list.
abbrev pub In : {A : Type 0} → A → List A → Type 0
In x [] = ⊥
In x (y ∷ ys) = (x ≡ y) ⊎ In x ys

pub In-append : {A : Type 0} (x : A) (xs ys : List A) → In x xs → In x (xs ++ ys)
In-append x [] ys h = absurd h
In-append x (y ∷ xs) ys (inl e) = inl e
In-append x (y ∷ xs) ys (inr h) = inr (In-append x xs ys h)

pub In-map : {A B : Type 0} (f : A → B) (x : A) (xs : List A) → In x xs → In (f x) (map f xs)
In-map f x [] h = absurd h
In-map f x (y ∷ xs) (inl e) = inl (ap f e)
In-map f x (y ∷ xs) (inr h) = inr (In-map f x xs h)

pub In-keep :
    {A : Type 0} (p : A → Bool) (x : A) (xs : List A) → In x xs → p x ≡ true → In x (keep p xs)
unfolding keep
In-keep p x [] h t = absurd h
In-keep p x (y ∷ xs) (inl e) t = elim (Bool-cases (p y)) [
  | inl yes_y ↦ rw yes_y (inl e)
  | inr no_y ↦ ground (arith, ap p e)
]
In-keep p x (y ∷ xs) (inr h) t = elim (Bool-cases (p y)) [
  | inl yes_y ↦ rw yes_y (inr (In-keep p x xs h t))
  | inr no_y ↦ rw no_y (In-keep p x xs h t)
]

module _ {A : Type 0} ⦃e : Eq A⦄ where
  pub has-In : (x : A) (xs : List A) → has x xs ≡ true → In x xs
  unfolding has
  has-In x [] h = ground arith
  has-In x (y ∷ ys) h = elim (e.dec x y) [ yes p ↦ inl p | no n ↦ inr (has-In x ys (ground arith)) ]

  pub In-has : (x : A) (xs : List A) → In x xs → has x xs ≡ true
  unfolding has
  In-has x [] h = absurd h
  In-has x (y ∷ ys) (inl p) = ground arith
  In-has x (y ∷ ys) (inr h) = ground (arith, In-has x ys h)

  pub has-append : (x : A) (xs ys : List A) → has x (xs ++ ys) ≡ has x xs || has x ys
  unfolding has
  has-append x [] ys = refl
  has-append x (y ∷ xs) ys = ground (arith, has-append x xs ys)
