-- ===== src/Prelude/Bytes.antt =====
-- Go strings as lists of bytes.
use Prim.Native.Nat.{ℕ, zero, suc}
use Prim.Native.Char.{code}
use Prim.Native.String.{String}
use mathlib.Core.Path.{◌≡◌, refl}
use mathlib.Core.Logic.{◌↔◌, ◌⊎◌, inl, inr, ◌≢◌}
use mathlib.Core.Bool.{Bool, true, false, ◌&&◌}
use mathlib.Core.List.{List, [], ◌∷◌}
use native.Mathlib.Omega.{arith}
use old_broker_repo.Prelude.Tests.{byte_eq, Bool-cases}

abbrev pub Text : Type 0
Text = List ℕ

-- The bytes of a literal; every literal of the program is ASCII.
abbrev pub codes : String → Text
codes String.[] = []
codes (String.◌∷◌ c s) = code c ∷ codes s

-- Go's `len`.
abbrev pub length {ℓ} : {A : Type ℓ} → List A → ℕ
length [] = zero
length (x ∷ xs) = suc (length xs)

infix 50 ◌==◌
unfoldable pub ◌==◌ : Text → Text → Bool
[] == [] = true
[] == (b ∷ t) = false
(a ∷ s) == [] = false
(a ∷ s) == (b ∷ t) = byte_eq a b && s == t

pub eq_iff : (s t : Text) → ((s == t) ≡ true) ↔ (s ≡ t)
unfolding ◌==◌
eq_iff [] [] = ground arith
eq_iff [] (b ∷ t) = ground arith
eq_iff (a ∷ s) [] = ground arith
eq_iff (a ∷ s) (b ∷ t) = ground (arith, eq_iff s t)

pub eq_refl : (s : Text) → (s == s) ≡ true
eq_refl s = (eq_iff s s).1 refl

-- A split on whether two texts are the same, with the test's value.
infix 50 ◌==?◌
pub ◌==?◌ : (s t : Text) → ((s ≡ t) × ((s == t) ≡ true)) ⊎ ((s ≢ t) × ((s == t) ≡ false))
◌==?◌ s t = elim (Bool-cases (s == t)) [
  | inl e ↦ inl ((eq_iff s t).0 e, e)
  | inr e ↦ inr ((λ p. ground (arith, eq_iff s t)), e)
]
