-- ===== src/Common/Equality.antt =====
-- `derive(PartialEq)`: a Boolean test that decides equality.
use Prim.Native.Nat.{ℕ}
use Prim.Native.String.{String}
use mathlib.Core.Path.{◌≡◌, refl}
use mathlib.Core.Logic.{◌↔◌}
use mathlib.Core.Bool.{Bool, true, false, ◌&&◌, ◌||◌}
use mathlib.Core.Option.{Option, none, some}
use mathlib.Core.List.{List, [], ◌∷◌}
use native.Mathlib.Omega.{arith}
use text.Mathlib.Text.{◌==◌ as str_eq}
use text.Mathlib.TextEquality.{eq_iff}
use package.litellm_relay.Common.Tests.{eq_ℕ}

-- A type with such a test, and the proof that the test decides equality.
pub record Eq {ℓ} (A : Type ℓ) : Type ℓ where
  pub eq : A → A → Bool
  pub decides : (x y : A) → (eq x y ≡ true) ↔ (x ≡ y)

pub eq_ℕ_iff : (a b : ℕ) → (eq_ℕ a b ≡ true) ↔ (a ≡ b)
eq_ℕ_iff a b = ground arith

instance abbrev pub string_eq : Eq String
string_eq = record { eq = str_eq; decides = eq_iff }

instance abbrev pub nat_eq : Eq ℕ
nat_eq = record { eq = eq_ℕ; decides = eq_ℕ_iff }

module _ {ℓ} {A : Type ℓ} ⦃e : Eq A⦄ where
  infix 50 ◌==◌
  abbrev pub ◌==◌ : A → A → Bool
  x == y = e.eq x y

  pub ==_iff : (a b : A) → ((a == b) ≡ true) ↔ (a ≡ b)
  ==_iff = e.decides

  pub ==_refl : (a : A) → (a == a) ≡ true
  ==_refl a = (==_iff a a).1 refl

abbrev pub eq_option {ℓ} : {A : Type ℓ} ⦃e : Eq A⦄ → Option A → Option A → Bool
eq_option none none = true
eq_option (some a) (some b) = a == b
eq_option _ _ = false

pub eq_option_iff {ℓ} : {A : Type ℓ} ⦃e : Eq A⦄ (a b : Option A) → (eq_option a b ≡ true) ↔ (a ≡ b)
eq_option_iff none none = ground arith
eq_option_iff (some a) (some b) = ground (arith, ==_iff a b)
eq_option_iff none (some b) = ground arith
eq_option_iff (some a) none = ground arith

instance abbrev pub option_eq {ℓ} : {A : Type ℓ} ⦃e : Eq A⦄ → Eq (Option A)
option_eq = record { eq = eq_option; decides = eq_option_iff }

abbrev pub eq_list {ℓ} : {A : Type ℓ} ⦃e : Eq A⦄ → List A → List A → Bool
eq_list [] [] = true
eq_list (a ∷ l) (b ∷ m) = a == b && eq_list l m
eq_list _ _ = false

pub eq_list_iff {ℓ} : {A : Type ℓ} ⦃e : Eq A⦄ (a b : List A) → (eq_list a b ≡ true) ↔ (a ≡ b)
eq_list_iff [] [] = ground arith
eq_list_iff (a ∷ l) (b ∷ m) = ground (arith, ==_iff a b, eq_list_iff l m)
eq_list_iff [] (b ∷ m) = ground arith
eq_list_iff (a ∷ l) [] = ground arith

instance abbrev pub list_eq {ℓ} : {A : Type ℓ} ⦃e : Eq A⦄ → Eq (List A)
list_eq = record { eq = eq_list; decides = eq_list_iff }

-- slice::contains
abbrev pub contains {ℓ} : {A : Type ℓ} ⦃e : Eq A⦄ → List A → A → Bool
contains [] a = false
contains (x ∷ xs) a = x == a || contains xs a
