-- ===== src/Prelude/Tests.antt =====
-- Boolean tests on bytes and lengths, the conditional, and case splits that keep their equation.
use Prim.Native.Nat.{ℕ, compare, Ordering}
use mathlib.Core.Path.{◌≡◌, refl}
use mathlib.Core.Logic.{◌↔◌, ◌⊎◌, inl, inr}
use mathlib.Core.Bool.{Bool, true, false}
use mathlib.Core.Option.{Option, none, some}
use native.Mathlib.Omega.{arith}

abbrev pub ltb : ℕ → ℕ → Bool
ltb a b = elim (compare a b) [ Ordering.lt ↦ true | _ ↦ false ]

abbrev pub leb : ℕ → ℕ → Bool
leb a b = elim (compare a b) [ Ordering.gt ↦ false | _ ↦ true ]

abbrev pub byte_eq : ℕ → ℕ → Bool
byte_eq a b = elim (compare a b) [ Ordering.eq ↦ true | _ ↦ false ]

infix 1 if◌then◌else◌
abbrev pub if◌then◌else◌ {ℓ} : {A : Type ℓ} → Bool → A → A → A
if true then x else y = x
if false then x else y = y

pub byte_eq_iff : (a b : ℕ) → (byte_eq a b ≡ true) ↔ (a ≡ b)
byte_eq_iff a b = ground arith

pub Bool-cases : (b : Bool) → (b ≡ true) ⊎ (b ≡ false)
Bool-cases true = inl refl
Bool-cases false = inr refl

pub Option-cases {ℓ} : {A : Type ℓ} (o : Option A) → (o ≡ none) ⊎ ((a : A) × (o ≡ some a))
Option-cases none = inl refl
Option-cases (some a) = inr (a, refl)

pub Sum-cases {ℓ κ} :
    {A : Type ℓ} {B : Type κ} (s : A ⊎ B) → ((a : A) × (s ≡ inl a)) ⊎ ((b : B) × (s ≡ inr b))
Sum-cases (inl a) = inl (a, refl)
Sum-cases (inr b) = inr (b, refl)
