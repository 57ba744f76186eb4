-- ===== src/Prelude/Equality.antt =====
-- Equality tests. An instance holds a decision, so that a test hands its proof to the tactics.
use Prim.Native.Nat.{ℕ}
use Prim.Native.String.{String}
use mathlib.Core.Path.{◌≡◌, refl}
use mathlib.Core.Bool.{Bool, true, false}
use mathlib.Core.Option.{Option}
use mathlib.Core.List.{List}
use native.Mathlib.Decide.{ℕ_discrete}
use native.Mathlib.Omega.{arith}
use text.Mathlib.Text.{◌==◌ as str_eq}
use text.Mathlib.TextEquality.{eq_iff}

pub record Eq {ℓ} (A : Type ℓ) : Type ℓ where
  pub dec : Discrete A

infix 50 ◌==◌ ◌!=◌
abbrev pub ◌==◌ {ℓ} : {A : Type ℓ} ⦃e : Eq A⦄ → A → A → Bool
◌==◌ ⦃e⦄ a b = elim (e.dec a b) [ yes _ ↦ true | no _ ↦ false ]

abbrev pub ◌!=◌ {ℓ} : {A : Type ℓ} ⦃e : Eq A⦄ → A → A → Bool
◌!=◌ ⦃e⦄ a b = elim (e.dec a b) [ yes _ ↦ false | no _ ↦ true ]

pub ==→eq {ℓ} : {A : Type ℓ} ⦃e : Eq A⦄ (a b : A) → (a == b) ≡ true → a ≡ b
==→eq a b h = ground arith

pub eq→== {ℓ} : {A : Type ℓ} ⦃e : Eq A⦄ (a b : A) → a ≡ b → (a == b) ≡ true
eq→== a b h = ground arith

string_dec : (s t : String) (b : Bool) → str_eq s t ≡ b → Dec (s ≡ t)
string_dec s t true h = yes ((eq_iff s t).0 h)
string_dec s t false h = no (λ e. ground (arith, (eq_iff s t).1 e))

unfoldable pub String-discrete : Discrete String
unfolding string_dec
String-discrete s t = string_dec s t (str_eq s t) refl

unfoldable pub Option-discrete {ℓ} : {A : Type ℓ} → Discrete A → Discrete (Option A)
Option-discrete d = hlevel

unfoldable pub List-discrete {ℓ} : {A : Type ℓ} → Discrete A → Discrete (List A)
List-discrete d = hlevel

unfoldable pub Bool-discrete : Discrete Bool
Bool-discrete = hlevel

instance abbrev pub Bool-eq : Eq Bool
Bool-eq = record { dec = Bool-discrete }

instance abbrev pub ℕ-eq : Eq ℕ
ℕ-eq = record { dec = ℕ_discrete }

instance abbrev pub String-eq : Eq String
String-eq = record { dec = String-discrete }

instance abbrev pub Option-eq {ℓ} : {A : Type ℓ} ⦃e : Eq A⦄ → Eq (Option A)
Option-eq ⦃e⦄ = record { dec = Option-discrete e.dec }

instance abbrev pub List-eq {ℓ} : {A : Type ℓ} ⦃e : Eq A⦄ → Eq (List A)
List-eq ⦃e⦄ = record { dec = List-discrete e.dec }
