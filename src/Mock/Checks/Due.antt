-- ===== src/Mock/Checks/Due.antt =====
-- Checks that come to their end with a report.
use mathlib.Core.List.{append_assoc}
use old_broker_repo.Prelude.{
  Text, List, [], ◌∷◌, ◌++◌, Error, ok, err, panic, ◌⊎◌, inl, inr, Act, ◌≡◌, ◌≢◌, refl, ap, ◌∙◌,
  Result-cases, Memᴰ, All, subst,
}
use old_broker_repo.Prelude.Calls.{pure, ◌>>=◌, ◌>>◌}
use old_broker_repo.Mock.Checks.{Report, text, Run, report, attempt, must_fail}
use old_broker_repo.Mock.Checks.Ending.{
  Ends, Always, Ends-pure, Ends-bind, Ends-attempt, Ends-must_fail, must_fail-Ends,
}

pub mem-after : {A : Type 0} {x : A} (l l' : List A) → Memᴰ x l' → Memᴰ x (l ++ l')
mem-after [] l' m = m
mem-after (y ∷ l) l' m = Memᴰ.tail (mem-after l l' m)

mem-before : {A : Type 0} {x : A} (l l' : List A) → Memᴰ x l → Memᴰ x (l ++ l')
mem-before [] l' m = elim m [ ]
mem-before (y ∷ l) l' (Memᴰ.head e) = Memᴰ.head e
mem-before (y ∷ l) l' (Memᴰ.tail m) = Memᴰ.tail (mem-before l l' m)

module _ {W : Type 0} (r : Report) where
  -- The check comes to its end and adds the report.
  abbrev pub Reports : {A : Type 0} → Run W A → Type 0
  Reports {A} m =
      (w : W) (reports : List Report)
      → (a : A) × (w' : W) × (new : List Report) × (m (w, reports) ≡ (ok a, (w', reports ++ new)))
        × Memᴰ r new

  -- The rest reports.
  pub Reports-then :
      {A B : Type 0} {P : A → Type 0} (m : Run W A) (f : A → Run W B)
      → Ends P m
      → ((a : A) → P a → Reports (f a))
      → Reports (m >>= f)
  Reports-then m f h k w reports =
      let (a, w₁, new, e, p) = h w reports in
      let (b, w₂, new', e', q) = k a p w₁ (reports ++ new) in
      (
        b,
        w₂,
        new ++ new',
        rw e (e' ∙ ap (λ l. (ok b, (w₂, l))) (append_assoc reports new new')),
        mem-after new new' q,
      )

  -- The first part reports.
  pub Reports-first :
      {A B : Type 0} (Q : B → Type 0) (m : Run W A) (f : A → Run W B)
      → Reports m
      → ((a : A) → Ends Q (f a))
      → Reports (m >>= f)
  Reports-first Q m f h k w reports =
      let (a, w₁, new, e, p) = h w reports in
      let (b, w₂, new', e', q) = k a w₁ (reports ++ new) in
      (
        b,
        w₂,
        new ++ new',
        rw e (e' ∙ ap (λ l. (ok b, (w₂, l))) (append_assoc reports new new')),
        mem-before new new' p,
      )

module _ {W A : Type 0} where
  -- A call that is never refused.
  abbrev pub NeverRefused : Act W A → Type 0
  NeverRefused m = (w : W) (x : Error) → (m w).0 ≢ err x

  abbrev pub Calm : Act W A → Type 0
  Calm m = (w : W) → (m w).0 ≢ panic

  pub must_fail-Reports :
      (m : Act W A) (message : Text)
      → Calm m
      → NeverRefused m
      → Reports (text message) (attempt m >>= must_fail message)
  unfolding attempt must_fail report
  must_fail-Reports m message calm never w reports = elim (Result-cases (m w).0) [
    | inl (a, p) ↦ (tt, (m w).1, text message ∷ [], rw p refl, Memᴰ.head refl)
    | inr (inl (x, p)) ↦ absurd (never w x p)
    | inr (inr p) ↦ absurd (calm w p)
  ]

  must_fail_first-Reports :
      (m : Act W A) (message : Text) (rest : Run W (Unit {0}))
      → Calm m
      → NeverRefused m
      → Ends Always rest
      → Reports (text message) (attempt m >>= λ r. must_fail message r >> rest)
  unfolding attempt must_fail report
  must_fail_first-Reports m message rest calm never h w reports = elim (Result-cases (m w).0) [
    | inl (a, p) ↦
        let (b, w', new, e, _) = h (m w).1 (reports ++ text message ∷ []) in
        (
          b,
          w',
          text message ∷ new,
          rw p (e ∙ ap (λ l. (ok b, (w', l))) (append_assoc reports (text message ∷ []) new)),
          Memᴰ.head refl,
        )
    | inr (inl (x, p)) ↦ absurd (never w x p)
    | inr (inr p) ↦ absurd (calm w p)
  ]

  -- Calls that are to fail, with what is reported where they do not.
  unfoldable pub must_all_fail : List (Act W A × Text) → Run W (Unit {0})
  unfolding attempt must_fail
  must_all_fail [] = pure tt
  must_all_fail ((m, message) ∷ []) = attempt m >>= must_fail message
  must_all_fail ((m, message) ∷ call ∷ calls) =
      attempt m >>= λ r. must_fail message r >> must_all_fail (call ∷ calls)

  -- One of the calls is never refused, and this is what is reported for it.
  abbrev pub IsDue : Text → List (Act W A × Text) → Type 0
  IsDue t [] = ⊥
  IsDue t ((m, message) ∷ calls) = ((message ≡ t) × NeverRefused m) ⊎ IsDue t calls

  pub must_all_fail-Ends :
      (calls : List (Act W A × Text))
      → All (λ p. Calm p.0) calls
      → Ends Always (must_all_fail calls)
  unfolding must_all_fail
  must_all_fail-Ends [] h = Ends-pure Always tt tt
  must_all_fail-Ends ((m, message) ∷ []) (p, h) =
      Ends-bind Always (attempt m) _ (Ends-attempt m p) λ r _. Ends-must_fail message r
  must_all_fail-Ends ((m, message) ∷ call ∷ calls) (p, h) =
      must_fail-Ends Always m message _ p (must_all_fail-Ends (call ∷ calls) h)

  pub must_all_fail-Reports :
      (t : Text) (calls : List (Act W A × Text))
      → All (λ p. Calm p.0) calls
      → IsDue t calls
      → Reports (text t) (must_all_fail calls)
  unfolding must_all_fail
  must_all_fail-Reports t [] h d = absurd d
  must_all_fail-Reports t ((m, message) ∷ []) (p, h) (inl (e, never)) =
      subst (λ x. Reports (text x) (attempt m >>= must_fail message)) e
        (must_fail-Reports m message p never)
  must_all_fail-Reports t ((m, message) ∷ []) (p, h) (inr d) = absurd d
  must_all_fail-Reports t ((m, message) ∷ call ∷ calls) (p, h) (inl (e, never)) =
      subst
        (λ x.
          Reports (text x) (attempt m >>= λ r. must_fail message r >> must_all_fail (call ∷ calls)))
        e (must_fail_first-Reports m message _ p never (must_all_fail-Ends (call ∷ calls) h))
  must_all_fail-Reports t ((m, message) ∷ call ∷ calls) (p, h) (inr d) =
      Reports-then (text t) (attempt m) _ (Ends-attempt m p) λ r _.
        Reports-then (text t) (must_fail message r) _ (Ends-must_fail message r)
          λ _ _. must_all_fail-Reports t (call ∷ calls) h d
