-- ===== src/Prelude/Dict.antt =====
-- Go maps with string keys, as association lists. A map built by `insert` has distinct keys.
pub mod Laws
pub mod Same
pub mod Members
use mathlib.Core.Option.{Option, none, some}
use mathlib.Core.List.{List, [], ◌∷◌}
use mathlib.Core.Logic.{◌≢◌}
use old_broker_repo.Prelude.Bytes.{Text, ◌==◌}
use old_broker_repo.Prelude.Tests.{if◌then◌else◌}
use old_broker_repo.Prelude.Lists.{All}

abbrev pub Dict : Type 0 → Type 0
Dict V = List (Text × V)

module _ {V : Type 0} where
  unfoldable pub lookup : Text → Dict V → Option V
  lookup key ((other, value) ∷ entries) = if other == key then some value else lookup key entries
  lookup key [] = none

  -- `m[k] = v`
  unfoldable pub insert : Text → V → Dict V → Dict V
  insert key value ((other, old) ∷ entries) =
      if other == key then (other, value) ∷ entries else (other, old) ∷ insert key value entries
  insert key value [] = (key, value) ∷ []

  abbrev pub IsFresh : Text → Dict V → Type 0
  IsFresh k m = All (λ e. e.0 ≢ k) m

  abbrev pub IsDistinct : Dict V → Type 0
  IsDistinct [] = Unit
  IsDistinct ((k, v) ∷ m) = IsFresh k m × IsDistinct m
