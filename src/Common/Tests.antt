-- ===== src/Common/Tests.antt =====
-- Boolean tests, the conditional, and equality as an interface.
use Prim.Native.Nat.{ℕ, compare, Ordering}
use Prim.Native.String.{String}
use mathlib.Core.Path.{◌≡◌, refl}
use mathlib.Core.Logic.{◌↔◌, ◌⊎◌, inl, inr}
use mathlib.Core.Bool.{Bool, true, false, ◌&&◌}
use mathlib.Core.Option.{Option, none, some}
use mathlib.Core.List.{List, [], ◌∷◌}
use native.Mathlib.Omega.{arith}
use text.Mathlib.Text.{◌==◌ as str_eq}
use text.Mathlib.TextEquality.{eq_iff}

abbrev pub ltb : ℕ → ℕ → Bool
ltb a b = elim (compare a b) [ Ordering.lt ↦ true | _ ↦ false ]

abbrev pub leb : ℕ → ℕ → Bool
leb a b = elim (compare a b) [ Ordering.gt ↦ false | _ ↦ true ]

abbrev pub nat_eqb : ℕ → ℕ → Bool
nat_eqb a b = elim (compare a b) [ Ordering.eq ↦ true | _ ↦ false ]

infix 1 if◌then◌else◌
abbrev pub if◌then◌else◌ {ℓ} : {A : Type ℓ} → Bool → A → A → A
if true then x else y = x
if false then x else y = y

pub nat_eqb_iff : (a b : ℕ) → (nat_eqb a b ≡ true) ↔ (a ≡ b)
nat_eqb_iff a b = ground arith

-- To split on a computed value and keep the equation.
pub Bool-cases : (b : Bool) → (b ≡ true) ⊎ (b ≡ false)
Bool-cases true = inl refl
Bool-cases false = inr refl

pub Option-cases {ℓ} : {A : Type ℓ} (o : Option A) → (o ≡ none) ⊎ ((a : A) × (o ≡ some a))
Option-cases none = inl refl
Option-cases (some a) = inr (a, refl)

-- A type whose values Go compares with `==`: a test, and that it tells equal values.
pub record Comparable {ℓ} (A : Type ℓ) : Type ℓ where
  pub equals : A → A → Bool
  pub equals_iff : (x y : A) → (equals x y ≡ true) ↔ (x ≡ y)

instance abbrev pub string_eq : Comparable String
string_eq = record { equals_iff = eq_iff; equals = str_eq }

instance abbrev pub nat_eq : Comparable ℕ
nat_eq = record { equals_iff = nat_eqb_iff; equals = nat_eqb }

infix 50 ◌==◌
abbrev pub ◌==◌ {ℓ} : {T : Type ℓ} ⦃c : Comparable T⦄ → T → T → Bool
◌==◌ ⦃c⦄ = c.equals

module _ {ℓ} {A : Type ℓ} ⦃e : Comparable A⦄ where
  pub eq_refl : (a : A) → (a == a) ≡ true
  eq_refl a = (e.equals_iff a a).1 refl

  abbrev pub list_eqb : List A → List A → Bool
  list_eqb [] [] = true
  list_eqb [] (y ∷ ys) = false
  list_eqb (x ∷ xs) [] = false
  list_eqb (x ∷ xs) (y ∷ ys) = x == y && list_eqb xs ys

  pub list_eqb_iff : (xs ys : List A) → (list_eqb xs ys ≡ true) ↔ (xs ≡ ys)
  list_eqb_iff [] [] = ground arith
  list_eqb_iff [] (y ∷ ys) = ground arith
  list_eqb_iff (x ∷ xs) [] = ground arith
  list_eqb_iff (x ∷ xs) (y ∷ ys) = ground (arith, e.equals_iff x y, list_eqb_iff xs ys)

  instance abbrev pub list_eq : Comparable (List A)
  list_eq = record { equals = list_eqb; equals_iff = list_eqb_iff }
