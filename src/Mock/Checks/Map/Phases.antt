-- ===== src/Mock/Checks/Map/Phases.antt =====
-- The parts of the check of a map that report.
use mathlib.Core.List.{append_assoc}
use old_broker_repo.Prelude.{
  ap, ℕ, suc, false, arith, Text, codes, List, [], ◌∷◌, ◌++◌, Error, Option, ok, inl, ◌≡◌, ◌≢◌,
  refl, byte_eq, ltb, length, Memᴰ, Act,
}
use old_broker_repo.Config.Resource.{Entry}
use old_broker_repo.Config.Store.{Store}
use old_broker_repo.Mock.{Fakes, fake_config, at_revision}
use old_broker_repo.Mock.Checks.{
  Report, report, report_if, report_error, error, text, format, observe,
}
use old_broker_repo.Mock.Checks.Ending.{Ends-report_error, Ends-report_if, Ends-observe}
use old_broker_repo.Mock.Checks.Due.{
  mem-after, Reports, Reports-then, must_all_fail, IsDue, must_all_fail-Reports,
}
use old_broker_repo.Mock.Checks.Map.{
  Numbered, Visits, named_entry, visited, check_updated, update_all, delete_all, check_refusals,
  check_absent, present, check_count, check_from_listing, list_error, wanted_n, wanted_none,
}
use old_broker_repo.Mock.Checks.Map.Samples.{AreSamples, IsCalm, IsSample, at_revision-IsSample}
use old_broker_repo.Mock.Checks.Map.Ends.{
  Ends-visited, Ends-check_updated, Ends-update_all, Ends-delete_all, Ends-check_count,
}

module _ {W Message : Type 0} (fakes : Fakes Message) (visits : Visits W) (store : Store W Message)
    (calm : IsCalm fakes store) where
  -- The writings that are to fail.
  abbrev pub refusals : Entry Message → Text → List (Act W Text × Text)
  refusals first revision =
      let invalid =
        named_entry fakes (codes "invalid") revision (record { key = []; pairs = [] }) in
      let missing =
        named_entry fakes (codes "missing") revision
          (record { key = codes "missing"; pairs = [] }) in
      (store.create first, codes "expected error posting twice")
      ∷ (store.create invalid, codes "expected error posting invalid object")
      ∷ (store.update invalid, codes "expected error putting invalid object")
      ∷ (store.update missing, codes "expected error putting missing object with a missing key")
      ∷ (store.update first, codes "expected error putting object without revision")
      ∷ (
        store.update (at_revision first (codes "bad")),
        codes "expected error putting object with a bad revision",
      )
      ∷ []

  abbrev pub absences : List (Act W (Unit {0}) × Text)
  absences =
      (
        store.delete (codes "missing") (codes "missing") [],
        codes "expected error on deletion of missing type",
      )
      ∷ (
        store.delete (fake_config fakes).type (codes "missing") [],
        codes "expected error on deletion of missing element",
      )
      ∷ []

  pub Reports-refusals :
      (t : Text) (first : Entry Message) (revision : Text)
      → IsSample fakes first
      → IsDue t (refusals first revision)
      → Reports (text t) (check_refusals fakes visits store first revision)
  unfolding check_refusals named_entry must_all_fail
  Reports-refusals t first revision p d =
      must_all_fail-Reports t (refusals first revision)
        (
          calm.creates _ p,
          (
            calm.creates _ (inl (_, refl)),
            (
              calm.updates _ (inl (_, refl)),
              (
                calm.updates _ (inl (_, refl)),
                (
                  calm.updates _ p,
                  (calm.updates _ (at_revision-IsSample fakes first (codes "bad") p), tt),
                ),
              ),
            ),
          ),
        )
        d

  pub Reports-absent :
      (t ns : Text) → IsDue t absences → Reports (text t) (check_absent fakes visits store ns)
  unfolding check_absent must_all_fail
  Reports-absent t ns d =
      Reports-then (text t) (observe (store.list _ _)) _ (Ends-observe _ (calm.lists _ _)) λ l _.
        Reports-then (text t) (report_if (ltb 0 (length l.0)) _) _ (Ends-report_if _ _) λ _ _.
          Reports-then (text t) (observe (store.get _ _ _)) _ (Ends-observe _ (calm.gets _ _ _))
            λ e _. Reports-then (text t) (report_if (present e) _) _ (Ends-report_if _ _) λ _ _.
              Reports-then (text t) (observe (store.get _ _ _)) _ (Ends-observe _ (calm.gets _ _ _))
                λ e' _.
                  Reports-then (text t) (report_if (present e') _) _ (Ends-report_if _ _) λ _ _.
                    must_all_fail-Reports t absences (calm.deletes _ _ _, (calm.deletes _ _ _, tt))
                      d

  suc_differs : (m : ℕ) → byte_eq (suc m) 0 ≡ false
  suc_differs m = ground arith

  -- The last listing, of which nothing is wanted.
  pub Reports-remaining :
      (ns : Text)
      → ((typ ns : Text) (w w' : W) (x : Option Error) → store.list typ ns w ≢ (ok ([], x), w'))
      → Reports (format wanted_none) (check_count fakes visits store ns 0 error wanted_none)
  unfolding check_count observe report_if report
  Reports-remaining ns full w reports =
      let (l, w', e) = calm.lists (fake_config fakes).type ns w in
      let (u, w₁, new, e₁, _) = Ends-report_error error l.1 w' reports in
      (
        tt,
        w₁,
        new ++ format wanted_none ∷ [],
        counted l w w' w₁ reports new e e₁,
        mem-after new _ (Memᴰ.head refl),
      )
    where
      counted :
          (l : List (Entry Message) × Option Error) (w w' w₁ : W) (reports new : List Report)
          → store.list (fake_config fakes).type ns w ≡ (ok l, w')
          → report_error error l.1 (w', reports) ≡ (ok tt, (w₁, reports ++ new))
          → check_count fakes visits store ns 0 error wanted_none (w, reports)
            ≡ (ok tt, (w₁, reports ++ (new ++ format wanted_none ∷ [])))
      counted ([], x) w w' w₁ reports new e e₁ = absurd (full (fake_config fakes).type ns w w' x e)
      counted (r ∷ rs, x) w w' w₁ reports new e e₁ =
          rw (e, e₁, suc_differs (length rs))
            (ap (λ l. (ok tt, (w₁, l))) (append_assoc reports new (format wanted_none ∷ [])))

  pub Reports-from_listing :
      (ns : Text) (n : ℕ) (elts : Numbered (Entry Message)) (revs : Numbered Text)
      → AreSamples fakes elts
      → ((typ ns : Text) (w w' : W) (x : Option Error) → store.list typ ns w ≢ (ok ([], x), w'))
      → Reports (format wanted_none) (check_from_listing fakes visits store ns n elts revs)
  unfolding check_from_listing
  Reports-from_listing ns n elts revs h full =
      let due = format wanted_none in
      Reports-then due (check_count fakes visits store ns n list_error wanted_n) _
        (Ends-check_count fakes visits store calm ns n list_error wanted_n)
        λ _ _.
          Reports-then due (update_all fakes visits store ns revs n 0 elts) _
            (Ends-update_all fakes visits store calm ns revs n 0 elts h)
            λ elts' h'.
              Reports-then due (visited (visits.visit elts')) _
                (Ends-visited fakes visits store calm elts' h')
                λ order _.
                  Reports-then due (check_updated fakes visits store elts' order) _
                    (Ends-check_updated fakes visits store calm elts' order)
                    λ _ _.
                      Reports-then due (visited (visits.visit elts')) _
                        (Ends-visited fakes visits store calm elts' h')
                        λ order' _.
                          Reports-then due (delete_all fakes visits store elts' order') _
                            (Ends-delete_all fakes visits store calm elts' order')
                            λ _ _. Reports-remaining ns full
