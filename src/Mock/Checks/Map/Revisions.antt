-- ===== src/Mock/Checks/Map/Revisions.antt =====
-- The check of a map from where the revisions are known on.
use old_broker_repo.Prelude.{ℕ, Text, []}
use old_broker_repo.Prelude.Calls.{◌>>◌}
use old_broker_repo.Config.Resource.{Entry}
use old_broker_repo.Config.Store.{Store}
use old_broker_repo.Mock.{Fakes}
use old_broker_repo.Mock.Checks.{Report, text}
use old_broker_repo.Mock.Checks.Ending.{Ends, Ends-bind, Always}
use old_broker_repo.Mock.Checks.Due.{Reports, Reports-then, Reports-first, IsDue}
use old_broker_repo.Mock.Checks.Map.{
  Numbered, value_at, Visits, zero_entry, check_refusals, check_absent, check_from_listing,
  check_from_revisions,
}
use old_broker_repo.Mock.Checks.Map.Samples.{AreSamples, IsCalm, IsSample, value_at-IsSample}
use old_broker_repo.Mock.Checks.Map.Phases.{refusals, absences, Reports-refusals, Reports-absent}
use old_broker_repo.Mock.Checks.Map.Ends.{Ends-check_refusals, Ends-check_absent, Ends-from_listing}

module _ {W Message : Type 0} (fakes : Fakes Message) (visits : Visits W) (store : Store W Message)
    (calm : IsCalm fakes store) where
  module _ (ns : Text) (n : ℕ) (elts : Numbered (Entry Message)) (revs : Numbered Text)
      (h : AreSamples fakes elts) where
    abbrev first : Entry Message
    first = value_at (zero_entry fakes) 0 elts

    first-IsSample : IsSample fakes first
    first-IsSample = value_at-IsSample fakes 0 elts h

    rest-Ends :
        Ends Always (
          check_absent fakes visits store ns
          >> check_from_listing fakes visits store ns n elts revs)
    rest-Ends =
        Ends-bind Always (check_absent fakes visits store ns) _
          (Ends-check_absent fakes visits store calm ns)
          λ _ _. Ends-from_listing fakes visits store calm ns n elts revs h

    pub from_refusals :
        (t : Text)
        → IsDue t (refusals fakes visits store calm first (value_at [] 0 revs))
        → Reports (text t) (check_from_revisions fakes visits store ns n elts revs)
    unfolding check_from_revisions
    from_refusals t d =
        Reports-first (text t) Always (check_refusals fakes visits store first (value_at [] 0 revs))
          _ (Reports-refusals fakes visits store calm t first (value_at [] 0 revs) first-IsSample d)
          λ _. rest-Ends

    after_refusals :
        (r : Report)
        → Reports r (
            check_absent fakes visits store ns
            >> check_from_listing fakes visits store ns n elts revs)
        → Reports r (check_from_revisions fakes visits store ns n elts revs)
    unfolding check_from_revisions
    after_refusals r k =
        Reports-then r (check_refusals fakes visits store first (value_at [] 0 revs)) _
          (Ends-check_refusals fakes visits store calm first (value_at [] 0 revs) first-IsSample)
          λ _ _. k

    pub after_absent :
        (r : Report)
        → Reports r (check_from_listing fakes visits store ns n elts revs)
        → Reports r (check_from_revisions fakes visits store ns n elts revs)
    after_absent r k = after_refusals r (
        Reports-then r (check_absent fakes visits store ns) _
          (Ends-check_absent fakes visits store calm ns) λ _ _. k)

    pub Ends-from_revisions : Ends Always (check_from_revisions fakes visits store ns n elts revs)
    unfolding check_from_revisions
    Ends-from_revisions =
        Ends-bind Always (check_refusals fakes visits store first (value_at [] 0 revs)) _
          (Ends-check_refusals fakes visits store calm first (value_at [] 0 revs) first-IsSample)
          λ _ _. rest-Ends

    pub from_absent :
        (t : Text)
        → IsDue t (absences fakes visits store calm)
        → Reports (text t) (check_from_revisions fakes visits store ns n elts revs)
    from_absent t d = after_refusals (text t) (
        Reports-first (text t) Always (check_absent fakes visits store ns) _
          (Reports-absent fakes visits store calm t ns d)
          λ _. Ends-from_listing fakes visits store calm ns n elts revs h)
