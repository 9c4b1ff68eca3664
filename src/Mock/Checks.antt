-- ===== src/Mock/Checks.antt =====
-- pkg/testing/mock/config.go: the two checks, which call a store and report to the testing package.
pub mod Ending
pub mod Due
pub mod Broker
pub mod Map
use old_broker_repo.Prelude.{
  Text, codes, List, [], ◌∷◌, ◌++◌, Bool, true, false, Option, none, some, Error, Result, ok, err,
  panic, ◌⊎◌, inl, inr, Act,
}
use old_broker_repo.Prelude.Calls.{pure}

-- What a check reports: an error, a text, or a format, of which the arguments are left out.
pub data Report : Type 0 where
  error : Error → Report
  text format : Text → Report

-- The world, with what has been reported.
abbrev pub Run : Type 0 → Type 0 → Type 0
Run W A = Act (W × List Report) A

abbrev pub attempted : {A : Type 0} → Result A → Result (Error ⊎ A)
attempted (ok a) = ok (inr a)
attempted (err e) = ok (inl e)
attempted panic = panic

module _ {W : Type 0} where
  -- `t.Error` and `t.Errorf`, after which the test goes on.
  unfoldable pub report : Report → Run W (Unit {0})
  report r (w, reports) = (ok tt, (w, reports ++ r ∷ []))

  -- A call of the store, with its value or its error.
  unfoldable pub attempt : {A : Type 0} → Act W A → Run W (Error ⊎ A)
  attempt m (w, reports) = let (r, w') = m w in (attempted r, (w', reports))

  -- A call that returns no error.
  unfoldable pub observe : {A : Type 0} → Act W A → Run W A
  observe m (w, reports) = let (r, w') = m w in (r, (w', reports))

  -- `if _, err := …; err != nil { t.Error(err) }`, with any report of the error.
  unfoldable pub must : {A : Type 0} → (Error → Report) → Error ⊎ A → Run W (Unit {0})
  unfolding report
  must f (inl e) = report (f e)
  must f (inr a) = pure tt

  -- `if _, err := …; err == nil { t.Error(…) }`
  unfoldable pub must_fail : {A : Type 0} → Text → Error ⊎ A → Run W (Unit {0})
  unfolding report
  must_fail message (inl e) = pure tt
  must_fail message (inr a) = report (text message)

  -- `if b { t.Error(…) }`
  unfoldable pub report_if : Bool → Report → Run W (Unit {0})
  unfolding report
  report_if true r = report r
  report_if false r = pure tt

  -- `if err != nil { t.Error(err) }`, with any report of the error.
  unfoldable pub report_error : (Error → Report) → Option Error → Run W (Unit {0})
  unfolding report
  report_error f none = pure tt
  report_error f (some e) = report (f e)
