-- ===== src/Mock/Checks/Ending.antt =====
-- Checks that come to their end, whatever they report.
use mathlib.Core.List.{append-nil, append_assoc}
use old_broker_repo.Prelude.{
  Text, List, [], ◌∷◌, ◌++◌, Bool, true, false, Error, Option, none, some, ok, panic, ◌⊎◌, inl, inr,
  Act, ◌≡◌, ◌≢◌, refl, ap, ◌∙◌, Result-cases,
}
use old_broker_repo.Prelude.Calls.{pure, ◌>>=◌, ◌>>◌}
use old_broker_repo.Mock.Checks.{
  Report, text, Run, report, report_error, attempt, observe, must, must_fail, report_if,
}

abbrev pub Always : {A : Type 0} → A → Type 0
Always a = Unit

module _ {W : Type 0} where
  -- The check returns a value for which `P` holds, and adds reports behind those that are there.
  abbrev pub Ends : {A : Type 0} → (A → Type 0) → Run W A → Type 0
  Ends {A} P m =
      (w : W) (reports : List Report)
      → (a : A) × (w' : W) × (new : List Report) × (m (w, reports) ≡ (ok a, (w', reports ++ new)))
        × P a

  pub Ends-pure : {A : Type 0} (P : A → Type 0) (a : A) → P a → Ends P (pure a)
  Ends-pure P a p w reports = (a, w, [], rw append-nil refl, p)

  pub Ends-bind :
      {A B : Type 0} {P : A → Type 0} (Q : B → Type 0) (m : Run W A) (f : A → Run W B)
      → Ends P m
      → ((a : A) → P a → Ends Q (f a))
      → Ends Q (m >>= f)
  Ends-bind Q m f h k w reports =
      let (a, w₁, new, e, p) = h w reports in
      let (b, w₂, new', e', q) = k a p w₁ (reports ++ new) in
      (b, w₂, new ++ new', rw e (e' ∙ ap (λ l. (ok b, (w₂, l))) (append_assoc reports new new')), q)

  pub Ends-report : (r : Report) → Ends Always (report r)
  unfolding report
  Ends-report r w reports = (tt, w, r ∷ [], refl, tt)

  pub Ends-report_if : (b : Bool) (r : Report) → Ends Always (report_if b r)
  unfolding report_if
  Ends-report_if true r = Ends-report r
  Ends-report_if false r = Ends-pure Always tt tt

  pub Ends-must : {A : Type 0} (f : Error → Report) (r : Error ⊎ A) → Ends Always (must f r)
  unfolding must
  Ends-must f (inl e) = Ends-report (f e)
  Ends-must f (inr a) = Ends-pure Always tt tt

  pub Ends-must_fail :
      {A : Type 0} (message : Text) (r : Error ⊎ A) → Ends Always (must_fail message r)
  unfolding must_fail
  Ends-must_fail message (inl e) = Ends-pure Always tt tt
  Ends-must_fail message (inr a) = Ends-report (text message)

  pub Ends-report_error : (f : Error → Report) (e : Option Error) → Ends Always (report_error f e)
  unfolding report_error
  Ends-report_error f none = Ends-pure Always tt tt
  Ends-report_error f (some e) = Ends-report (f e)

  -- A call that does not panic is attempted.
  pub Ends-attempt :
      {A : Type 0} (m : Act W A) → ((w : W) → (m w).0 ≢ panic) → Ends Always (attempt m)
  unfolding attempt
  Ends-attempt m calm w reports = elim (Result-cases (m w).0) [
    | inl (a, p) ↦ (inr a, (m w).1, [], rw (p, append-nil) refl, tt)
    | inr (inl (x, p)) ↦ (inl x, (m w).1, [], rw (p, append-nil) refl, tt)
    | inr (inr p) ↦ absurd (calm w p)
  ]

  pub Ends-observe :
      {A : Type 0} (m : Act W A)
      → ((w : W) → (a : A) × (w' : W) × (m w ≡ (ok a, w')))
      → Ends Always (observe m)
  unfolding observe
  Ends-observe m returns w reports =
      let (a, w', e) = returns w in (a, w', [], rw (e, append-nil) refl, tt)

  -- The steps of a check, each before the rest of it.
  module _ {A B : Type 0} (Q : B → Type 0) where
    pub must-Ends :
        (m : Act W A) (f : Error → Report) (rest : Run W B)
        → ((w : W) → (m w).0 ≢ panic)
        → Ends Q rest
        → Ends Q (attempt m >>= λ r. must f r >> rest)
    must-Ends m f rest calm h =
        Ends-bind Q (attempt m) _ (Ends-attempt m calm)
          λ r _. Ends-bind Q (must f r) _ (Ends-must f r) λ _ _. h

    pub must_fail-Ends :
        (m : Act W A) (message : Text) (rest : Run W B)
        → ((w : W) → (m w).0 ≢ panic)
        → Ends Q rest
        → Ends Q (attempt m >>= λ r. must_fail message r >> rest)
    must_fail-Ends m message rest calm h =
        Ends-bind Q (attempt m) _ (Ends-attempt m calm)
          λ r _. Ends-bind Q (must_fail message r) _ (Ends-must_fail message r) λ _ _. h

    pub observe-Ends :
        (m : Act W A) (rest : A → Run W B)
        → ((w : W) → (a : A) × (w' : W) × (m w ≡ (ok a, w')))
        → ((a : A) → Ends Q (rest a))
        → Ends Q (observe m >>= rest)
    observe-Ends m rest returns h = Ends-bind Q (observe m) _ (Ends-observe m returns) λ a _. h a

  pub report_if-Ends :
      {B : Type 0} (Q : B → Type 0) (b : Bool) (r : Report) (rest : Run W B)
      → Ends Q rest
      → Ends Q (report_if b r >> rest)
  report_if-Ends Q b r rest h = Ends-bind Q (report_if b r) _ (Ends-report_if b r) λ _ _. h
