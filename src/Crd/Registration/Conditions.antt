-- ===== src/Crd/Registration/Conditions.antt =====
-- When a definition counts as established.
use old_broker_repo.Prelude.{
  codes, List, ◌∷◌, [], Option, some, Error, errorf, append, ◌≡◌, ◌↔◌, inl, inr, ◌⊎◌, Memᴰ, refl,
  subst,
}
use old_broker_repo.Crd.Registration.{
  Condition, ConditionType, ConditionStatus, established, names_accepted, other_type,
  condition_true, condition_false, condition_unknown, Inspected, inspect, is_established, pending,
}

-- The condition that says so.
abbrev Says : Condition → Type 0
Says cond = (cond.type ≡ established) × (cond.status ≡ condition_true)

abbrev pub IsEstablished : List Condition → Type 0
IsEstablished conds = (cond : Condition) × Memᴰ cond conds × Says cond

type-cases :
    (t : ConditionType)
    → (t ≡ established) ⊎ ((t ≡ names_accepted) ⊎ ((x : _) × (t ≡ other_type x)))
type-cases established = inl refl
type-cases names_accepted = inr (inl refl)
type-cases (other_type x) = inr (inr (x, refl))

status-cases :
    (s : ConditionStatus) → (s ≡ condition_true) ⊎ ((s ≡ condition_false) ⊎ (s ≡ condition_unknown))
status-cases condition_true = inl refl
status-cases condition_false = inr (inl refl)
status-cases condition_unknown = inr (inr refl)

-- A condition says so, or the loop goes on behind it with some errors.
step-cases :
    (cond : Condition) (conds : List Condition) (errs : Option Error)
    → (Says cond × (inspect (cond ∷ conds) errs ≡ is_established))
      ⊎ ((¬ Says cond)
          × ((errs' : Option Error) × (inspect (cond ∷ conds) errs ≡ inspect conds errs')))
unfolding inspect
step-cases cond conds errs = elim (type-cases cond.type) [
  | inl p ↦ elim (status-cases cond.status) [
    | inl q ↦ inl ((p, q), rw (p, inspect, q))
    | inr (inl q) ↦ inr ((λ h. cc), (errs, rw (p, inspect, q)))
    | inr (inr q) ↦ inr ((λ h. cc), (errs, rw (p, inspect, q)))
  ]
  | inr (inl p) ↦ elim (status-cases cond.status) [
    | inl q ↦ inr ((λ h. cc), (errs, rw (p, inspect, q)))
    | inr (inl q) ↦ inr (
      (λ h. cc),
      (
        some (append errs (some (errorf (codes "name conflict: %v") (cond.reason ∷ [])))),
        rw (p, inspect, q),
      ),
    )
    | inr (inr q) ↦ inr ((λ h. cc), (errs, rw (p, inspect, q)))
  ]
  | inr (inr (x, p)) ↦ inr ((λ h. cc), (errs, rw (p, inspect)))
]

later :
    {cond : Condition} {conds : List Condition} → IsEstablished conds → IsEstablished (cond ∷ conds)
later (c, m, s) = (c, Memᴰ.tail m, s)

earlier :
    {cond : Condition} {conds : List Condition}
    → (¬ Says cond)
    → IsEstablished (cond ∷ conds)
    → IsEstablished conds
earlier n (c, Memᴰ.head e, s) = absurd (n (subst Says e s))
earlier n (c, Memᴰ.tail m, s) = (c, m, s)

-- The loop over the conditions of a definition finds it established exactly if one of the
-- conditions is of the type Established and has the status True, whatever errors were put together
-- before.
pub inspect_iff :
    (conds : List Condition) (errs : Option Error)
    → (inspect conds errs ≡ is_established) ↔ IsEstablished conds
inspect_iff [] errs = unfold inspect in ((λ h. cc), λ (c, m, s). elim m [ ])
inspect_iff (cond ∷ conds) errs = elim (step-cases cond conds errs) [
  | inl (s, p) ↦ ((λ h. (cond, Memᴰ.head refl, s)), λ h. p)
  | inr (n, (errs', p)) ↦
      let ih = inspect_iff conds errs' in rw p ((λ h. later (ih.0 h)), λ h. ih.1 (earlier n h))
]

-- It ends in one of the two ways.
pub Inspected-cases :
    (i : Inspected) → (i ≡ is_established) ⊎ ((errs : Option Error) × (i ≡ pending errs))
Inspected-cases is_established = inl refl
Inspected-cases (pending errs) = inr (errs, refl)
