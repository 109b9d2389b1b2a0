-- ===== src/Prelude/Tests.antt =====
-- Boolean tests on the native numbers, equality as an interface, and the conditional.
use Prim.Native.Nat.{ℕ, compare, Ordering}
use mathlib.Core.Path.{◌≡◌, refl}
use mathlib.Core.Logic.{◌↔◌, ◌⊎◌, inl, inr}
use mathlib.Core.Bool.{Bool, true, false, ◌&&◌}
use mathlib.Core.List.{List, [], ◌∷◌}
use mathlib.Core.Option.{Option, none, some}
use native.Mathlib.Omega.{arith}

abbrev pub ltb : ℕ → ℕ → Bool
ltb a b = elim (compare a b) [ Ordering.lt ↦ true | _ ↦ false ]

abbrev pub leb : ℕ → ℕ → Bool
leb a b = elim (compare a b) [ Ordering.gt ↦ false | _ ↦ true ]

abbrev pub nat_beq : ℕ → ℕ → Bool
nat_beq a b = elim (compare a b) [ Ordering.eq ↦ true | _ ↦ false ]

pub nat_beq_iff : (a b : ℕ) → (nat_beq a b ≡ true) ↔ (a ≡ b)
nat_beq_iff a b = ground arith

infix 1 if◌then◌else◌
abbrev pub if◌then◌else◌ {ℓ} : {A : Type ℓ} → Bool → A → A → A
if true then x else y = x
if false then x else y = y

-- To split on a computed value and keep the equation.
pub Bool-cases : (b : Bool) → (b ≡ true) ⊎ (b ≡ false)
Bool-cases true = inl refl
Bool-cases false = inr refl

pub Option-cases {ℓ} : {A : Type ℓ} (o : Option A) → (o ≡ none) ⊎ ((a : A) × (o ≡ some a))
Option-cases none = inl refl
Option-cases (some a) = inr (a, refl)

pub List-cases {ℓ} :
    {A : Type ℓ} (xs : List A) → (xs ≡ []) ⊎ ((x : A) × (rest : List A) × (xs ≡ x ∷ rest))
List-cases [] = inl refl
List-cases (x ∷ xs) = inr (x, xs, refl)

-- Rust's `PartialEq` of a type whose `==` is equality.
pub record PartialEq {ℓ} (T : Type ℓ) : Type ℓ where
  pub eq : T → T → Bool
  pub eq_iff : (x y : T) → (eq x y ≡ true) ↔ (x ≡ y)

instance abbrev pub nat_eq : PartialEq ℕ
nat_eq = record { eq = nat_beq; eq_iff = nat_beq_iff }

infix 50 ◌==◌
abbrev pub ◌==◌ {ℓ} : {A : Type ℓ} ⦃e : PartialEq A⦄ → A → A → Bool
◌==◌ ⦃e⦄ = e.eq

pub beq_refl {ℓ} : {A : Type ℓ} ⦃e : PartialEq A⦄ (a : A) → (a == a) ≡ true
beq_refl ⦃e⦄ a = (e.eq_iff a a).1 refl

module _ {ℓ} {A : Type ℓ} ⦃e : PartialEq A⦄ where
  abbrev pub list_beq : List A → List A → Bool
  list_beq [] [] = true
  list_beq [] (y ∷ ys) = false
  list_beq (x ∷ xs) [] = false
  list_beq (x ∷ xs) (y ∷ ys) = x == y && list_beq xs ys

  pub list_beq_iff : (xs ys : List A) → (list_beq xs ys ≡ true) ↔ (xs ≡ ys)
  list_beq_iff [] [] = ground arith
  list_beq_iff [] (y ∷ ys) = ground arith
  list_beq_iff (x ∷ xs) [] = ground arith
  list_beq_iff (x ∷ xs) (y ∷ ys) = ground (arith, e.eq_iff x y, list_beq_iff xs ys)

  instance abbrev pub list_eq : PartialEq (List A)
  list_eq = record { eq = list_beq; eq_iff = list_beq_iff }
