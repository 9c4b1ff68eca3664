-- ===== src/Prelude/Calls.antt =====
-- Calls in sequence on a world: an error or a panic ends the sequence, and what was done stays done.
-- Also the order in which Go's `range` visits a map, which the language leaves open.
use mathlib.Core.Logic.{◌⊎◌}
use mathlib.Core.List.{Permᴰ}
use old_broker_repo.Prelude.Dict.{Dict}
use old_broker_repo.Prelude.Outcomes.{Error, Result, ok, err, panic, lift, Act}

module _ {W : Type 0} where
  abbrev pub pure : {A : Type 0} → A → Act W A
  pure a w = (ok a, w)

  abbrev pub fail : {A : Type 0} → Error → Act W A
  fail e w = (err e, w)

  abbrev pub of_result : {A : Type 0} → Result A → Act W A
  of_result r w = (r, w)

  -- A call of a library or a server.
  abbrev pub call : {A : Type 0} → (W → (Error ⊎ A) × W) → Act W A
  call f w = let (r, w') = f w in (lift r, w')

  -- A call that cannot fail.
  abbrev pub run : {A : Type 0} → (W → A × W) → Act W A
  run f w = let (a, w') = f w in (ok a, w')

module _ {W A B : Type 0} where
  abbrev pub continue : Result A → (A → Act W B) → Act W B
  continue (ok a) f w = f a w
  continue (err e) f w = (err e, w)
  continue panic f w = (panic, w)

  infixl 5 ◌>>=◌ ◌>>◌
  abbrev pub ◌>>=◌ : Act W A → (A → Act W B) → Act W B
  ◌>>=◌ m f w = let (r, w') = m w in continue r f w'

  abbrev pub ◌>>◌ : Act W A → Act W B → Act W B
  m >> n = m >>= λ _. n

-- `for k, v := range m` visits each entry once, in an order that the language does not fix.
pub record Ranging (W : Type 0) : Type 1 where
  pub visit : {V : Type 0} → Dict V → W → Dict V × W
  pub visit_perm : {V : Type 0} (m : Dict V) (w : W) → Permᴰ m (visit m w).0
