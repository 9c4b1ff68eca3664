-- ===== src/Prelude/Outcomes.antt =====
-- How a Go call ends: with a value, with an error, or in a panic; and calls that read and change
-- the world outside.
use mathlib.Core.Path.{◌≡◌, refl}
use mathlib.Core.Logic.{◌⊎◌, inl, inr}
use mathlib.Core.Option.{Option, none, some}
use mathlib.Core.List.{List}
use old_broker_repo.Prelude.Bytes.{Text}

-- An error, as the source builds it: `fmt.Errorf` with a text or with an error, the calls of
-- multierror, and an error that comes from outside the repository.
pub data Error : Type 0 where
  errorf : Text → List Text → Error
  wrapped : Text → Error → Error
  prefixed : Error → Text → Error
  append_nil_nil : Error
  append_nil append_only : Error → Error
  append_to : Error → Error → Error
  foreign : Text → Error

-- `multierror.Append(errs, err)`: by its documentation never nil, also where both arguments are.
abbrev pub append : Option Error → Option Error → Error
append none none = append_nil_nil
append none (some e) = append_nil e
append (some errs) none = append_only errs
append (some errs) (some e) = append_to errs e

pub data Result {ℓ} (A : Type ℓ) : Type ℓ where
  ok : A → Result A
  err : Error → Result A
  panic : Result A

-- The three ways to end, with the equation.
pub Result-cases {ℓ} :
    {A : Type ℓ} (r : Result A)
    → ((a : A) × (r ≡ ok a)) ⊎ (((e : Error) × (r ≡ err e)) ⊎ (r ≡ panic))
Result-cases (ok a) = inl (a, refl)
Result-cases (err e) = inr (inl (e, refl))
Result-cases panic = inr (inr refl)

-- `if err != nil { return …, err }`: what follows runs on a value only.
infixl 5 ◌>>=◌
abbrev pub ◌>>=◌ {ℓ κ} : {A : Type ℓ} {B : Type κ} → Result A → (A → Result B) → Result B
panic >>= next = panic
err e >>= next = err e
ok value >>= next = next value

infixl 5 ◌>>◌
abbrev pub ◌>>◌ {ℓ} : {B : Type ℓ} → Result (Unit {0}) → Result B → Result B
check >> rest = check >>= λ _. rest

-- A call of a library or a server ends with a value or an error.
abbrev pub lift {ℓ} : {A : Type ℓ} → Error ⊎ A → Result A
lift (inl e) = err e
lift (inr a) = ok a

-- `if err != nil { return nil, f(err) }`
abbrev pub map_err {ℓ} : {A : Type ℓ} → (Error → Error) → Result A → Result A
map_err f (ok a) = ok a
map_err f (err e) = err (f e)
map_err f panic = panic

-- A call that works on the world `W`: what a panic or an error leaves behind stays.
abbrev pub Act : Type 0 → Type 0 → Type 0
Act W A = W → Result A × W
