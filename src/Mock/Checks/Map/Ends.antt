-- ===== src/Mock/Checks/Map/Ends.antt =====
-- The check of a map runs to its end.
use mathlib.Core.List.{append-nil}
use old_broker_repo.Prelude.{
  ℕ, zero, suc, Text, codes, [], ◌∷◌, not, Error, inl, refl, byte_eq, ltb, length,
}
use old_broker_repo.Prelude.Dict.Laws.{All-perm}
use old_broker_repo.Config.Resource.{Entry}
use old_broker_repo.Config.Store.{Store}
use old_broker_repo.Mock.{Fakes, at_revision}
use old_broker_repo.Mock.Checks.{Report, report_error, error, text, format, attempt}
use old_broker_repo.Mock.Checks.Ending.{
  Ends, Always, Ends-pure, Ends-bind, Ends-report_error, Ends-report_if, Ends-must_fail,
  Ends-attempt, must-Ends, must_fail-Ends, observe-Ends, report_if-Ends,
}
use old_broker_repo.Mock.Checks.Map.{
  Numbered, value_at, Visits, named_entry, updated, create_all, is_kept, with_revision, visited,
  check_created, check_updated, update_all, delete_all, check_refusals, check_absent, present,
  check_count, check_from_listing, list_error, wanted_n, wanted_none,
}
use old_broker_repo.Mock.Checks.Map.Samples.{
  AreSamples, IsCalm, IsSample, at_revision-IsSample, put-AreSamples, updated-IsSample,
}

module _ {W Message : Type 0} (fakes : Fakes Message) (visits : Visits W) (store : Store W Message)
    (calm : IsCalm fakes store) where
  pub Ends-visited :
      (elts : Numbered (Entry Message))
      → AreSamples fakes elts
      → Ends (AreSamples fakes) (visited (visits.visit elts))
  unfolding visited
  Ends-visited elts h w reports =
      let (order, w') = visits.visit elts w in
      (
        order,
        w',
        [],
        rw append-nil refl,
        All-perm (λ p. IsSample fakes p.1) (visits.visit_perm elts w) h,
      )

  pub Ends-create_all :
      (elts : Numbered (Entry Message))
      → AreSamples fakes elts
      → Ends Always (create_all fakes visits store elts)
  unfolding create_all
  Ends-create_all [] h = Ends-pure Always tt tt
  Ends-create_all ((i, elt) ∷ elts) (p, h) =
      must-Ends Always (store.create elt) error _ (calm.creates elt p) (Ends-create_all elts h)

  abbrev wanted : Report
  wanted = format (codes "wanted %v, got %v")

  pub Ends-check_created :
      (elts : Numbered (Entry Message)) (revs : Numbered Text)
      → Ends Always (check_created fakes visits store elts revs)
  unfolding check_created
  Ends-check_created [] revs = Ends-pure Always revs tt
  Ends-check_created ((i, elt) ∷ elts) revs =
      observe-Ends Always (store.get _ elt.name elt.namespace) _
        (calm.gets _ elt.name elt.namespace)
        λ v1.
          report_if-Ends Always (not (is_kept fakes elt v1)) wanted _
            (Ends-check_created elts (with_revision fakes i elt v1 revs))

  pub Ends-check_updated :
      (elts order : Numbered (Entry Message))
      → Ends Always (check_updated fakes visits store elts order)
  unfolding check_updated
  Ends-check_updated elts [] = Ends-pure Always tt tt
  Ends-check_updated elts ((i, elt) ∷ order) =
      observe-Ends Always (store.get _ _ _) _ (calm.gets _ _ _) λ v1.
        report_if-Ends Always (not (is_kept fakes elt v1)) wanted _ (Ends-check_updated elts order)

  pub Ends-update_all :
      (ns : Text) (revs : Numbered Text) (left i : ℕ) (elts : Numbered (Entry Message))
      → AreSamples fakes elts
      → Ends (AreSamples fakes) (update_all fakes visits store ns revs left i elts)
  unfolding update_all
  Ends-update_all ns revs zero i elts h = Ends-pure (AreSamples fakes) elts h
  Ends-update_all ns revs (suc left) i elts h =
      let elt = updated fakes ns i (value_at [] i revs) in
      let sample = updated-IsSample fakes ns i (value_at [] i revs) in
      must-Ends (AreSamples fakes) (store.update elt) error _ (calm.updates elt sample)
        (Ends-update_all ns revs left (suc i) _ (put-AreSamples fakes i elt elts sample h))

  pub Ends-delete_all :
      (elts order : Numbered (Entry Message))
      → Ends Always (delete_all fakes visits store elts order)
  unfolding delete_all
  Ends-delete_all elts [] = Ends-pure Always tt tt
  Ends-delete_all elts ((i, elt) ∷ order) =
      must-Ends Always (store.delete _ _ _) error _ (calm.deletes _ _ _)
        (Ends-delete_all elts order)

  pub Ends-check_refusals :
      (first : Entry Message) (revision : Text)
      → IsSample fakes first
      → Ends Always (check_refusals fakes visits store first revision)
  unfolding check_refusals named_entry
  Ends-check_refusals first revision p =
      must_fail-Ends Always (store.create _) _ _ (calm.creates _ p) (
        must_fail-Ends Always (store.create _) _ _ (calm.creates _ (inl (_, refl))) (
          must_fail-Ends Always (store.update _) _ _ (calm.updates _ (inl (_, refl))) (
            must_fail-Ends Always (store.update _) _ _ (calm.updates _ (inl (_, refl))) (
              must_fail-Ends Always (store.update _) _ _ (calm.updates _ p) (
                Ends-bind Always (attempt (store.update (at_revision first (codes "bad")))) _
                  (Ends-attempt _
                    (calm.updates _ (at_revision-IsSample fakes first (codes "bad") p)))
                  λ r _. Ends-must_fail _ r)))))

  abbrev unexpected : Report
  unexpected = text (codes "unexpected configuration object found")

  pub Ends-check_absent : (ns : Text) → Ends Always (check_absent fakes visits store ns)
  unfolding check_absent
  Ends-check_absent ns = observe-Ends Always (store.list _ _) _ (calm.lists _ _) λ l.
      report_if-Ends Always (ltb 0 (length l.0))
        (format (codes "unexpected objects for missing type")) _
        (observe-Ends Always (store.get _ _ _) _ (calm.gets _ _ _) λ e.
          report_if-Ends Always (present e) unexpected _ (
            observe-Ends Always (store.get _ _ _) _ (calm.gets _ _ _) λ e'.
              report_if-Ends Always (present e') unexpected _ (
                must_fail-Ends Always (store.delete _ _ _) _ _ (calm.deletes _ _ _) (
                  Ends-bind Always (attempt (store.delete _ _ _)) _
                    (Ends-attempt _ (calm.deletes _ _ _)) λ r _. Ends-must_fail _ r))))

  pub Ends-check_count :
      (ns : Text) (n : ℕ) (f : Error → Report) (message : Text)
      → Ends Always (check_count fakes visits store ns n f message)
  unfolding check_count
  Ends-check_count ns n f message = observe-Ends Always (store.list _ _) _ (calm.lists _ _) λ l.
      Ends-bind Always (report_error f l.1) _ (Ends-report_error f l.1)
        λ _ _. Ends-report_if (not (byte_eq (length l.0) n)) (format message)

  -- The second half, from the listing on.
  pub Ends-from_listing :
      (ns : Text) (n : ℕ) (elts : Numbered (Entry Message)) (revs : Numbered Text)
      → AreSamples fakes elts
      → Ends Always (check_from_listing fakes visits store ns n elts revs)
  unfolding check_from_listing
  Ends-from_listing ns n elts revs h =
      Ends-bind Always (check_count fakes visits store ns n list_error wanted_n) _
        (Ends-check_count ns n list_error wanted_n)
        λ _ _.
          Ends-bind Always (update_all fakes visits store ns revs n 0 elts) _
            (Ends-update_all ns revs n 0 elts h)
            λ elts' h'.
              Ends-bind Always (visited (visits.visit elts')) _ (Ends-visited elts' h') λ order _.
                Ends-bind Always (check_updated fakes visits store elts' order) _
                  (Ends-check_updated elts' order)
                  λ _ _.
                    Ends-bind Always (visited (visits.visit elts')) _ (Ends-visited elts' h')
                      λ order' _.
                        Ends-bind Always (delete_all fakes visits store elts' order') _
                          (Ends-delete_all elts' order')
                          λ _ _. Ends-check_count ns 0 error wanted_none
