-- ===== src/Mock/Checks/Map/Faults.antt =====
-- What the check of a map reports of a store that refuses nothing, or everything.
use old_broker_repo.Prelude.{
  zero, suc, ◌<◌, arith, ℕ, Text, codes, List, [], ◌∷◌, ◌++◌, Bool, not, Error, Option, ok, inl,
  inr, ◌≡◌, ◌≢◌, sym, Memᴰ,
}
use old_broker_repo.Config.Resource.{Entry}
use old_broker_repo.Config.Descriptor.{get_by_type}
use old_broker_repo.Config.Store.{Store}
use old_broker_repo.Mock.{Fakes, fake_config}
use old_broker_repo.Mock.Checks.{Report, report_if, error, text, format}
use old_broker_repo.Mock.Checks.Ending.{Ends-bind, Always, Ends-report_if}
use old_broker_repo.Mock.Checks.Due.{Reports, Reports-then, Reports-first, NeverRefused, IsDue}
use old_broker_repo.Mock.Checks.Map.{
  Numbered, Visits, elements_from, create_all, visited, check_created, present,
  check_from_revisions, check_map_invariant, wanted_none,
}
use old_broker_repo.Mock.Checks.Map.Samples.{AreSamples, IsCalm, elements_from-AreSamples}
use old_broker_repo.Mock.Checks.Map.Revisions.{
  from_refusals, after_absent, Ends-from_revisions, from_absent,
}
use old_broker_repo.Mock.Checks.Map.Loops.{
  Refused, Inhabited, AreSome, elements-Inhabited, visited-AreSome, Reports-create_all,
  Reports-updates, Reports-deletions,
}
use old_broker_repo.Mock.Checks.Map.Phases.{refusals, absences, Reports-from_listing}
use old_broker_repo.Mock.Checks.Map.Ends.{Ends-visited, Ends-create_all, Ends-check_created}

-- What is reported of creations, of updates and of deletions that are to fail and do not.
abbrev pub creations : List Text
creations =
    codes "expected error posting twice" ∷ codes "expected error posting invalid object" ∷ []

abbrev pub updates : List Text
updates =
    codes "expected error putting invalid object"
    ∷ codes "expected error putting missing object with a missing key"
    ∷ codes "expected error putting object without revision"
    ∷ codes "expected error putting object with a bad revision"
    ∷ []

abbrev pub deletions : List Text
deletions =
    codes "expected error on deletion of missing type"
    ∷ codes "expected error on deletion of missing element"
    ∷ []

-- A fault of the store, and what is to be reported of it for `n` elements: a kind of writing is never
-- refused, or always with one error, or no listing is empty.
pub data Fault {W Message : Type 0} (store : Store W Message) (n : ℕ) : Report → Type 0 where
  creates :
      ((e : Entry Message) → NeverRefused (store.create e))
      → (t : Text) → Memᴰ t creations
      → Fault store n (text t)
  updates_all :
      ((e : Entry Message) → NeverRefused (store.update e))
      → (t : Text) → Memᴰ t updates
      → Fault store n (text t)
  deletes :
      ((typ n ns : Text) → NeverRefused (store.delete typ n ns))
      → (t : Text) → Memᴰ t deletions
      → Fault store n (text t)
  refused_creations :
      (x : Error)
      → 0 < n
      → ((e : Entry Message) → Refused x (store.create e))
      → Fault store n (error x)
  refused_updates :
      (x : Error)
      → 0 < n
      → ((e : Entry Message) → Refused x (store.update e))
      → Fault store n (error x)
  refused_deletions :
      (x : Error)
      → 0 < n
      → ((typ name ns : Text) → Refused x (store.delete typ name ns))
      → Fault store n (error x)
  lists :
      ((typ ns : Text) (w w' : W) (x : Option Error) → store.list typ ns w ≢ (ok ([], x), w'))
      → Fault store n (format wanted_none)

module _ {W Message : Type 0} (fakes : Fakes Message) (visits : Visits W) (store : Store W Message)
    (calm : IsCalm fakes store) where
  -- What is due of the refusals, or of the absent, where a kind of writing is never refused.
  IsDue-creations :
      (t : Text) (first : Entry Message) (revision : Text)
      → ((e : Entry Message) → NeverRefused (store.create e))
      → Memᴰ t creations
      → IsDue t (refusals fakes visits store calm first revision)
  IsDue-creations t first revision never (Memᴰ.head p) = inl (sym p, never _)
  IsDue-creations t first revision never (Memᴰ.tail (Memᴰ.head p)) = inr (inl (sym p, never _))
  IsDue-creations t first revision never (Memᴰ.tail (Memᴰ.tail m)) = elim m [ ]

  IsDue-updates :
      (t : Text) (first : Entry Message) (revision : Text)
      → ((e : Entry Message) → NeverRefused (store.update e))
      → Memᴰ t updates
      → IsDue t (refusals fakes visits store calm first revision)
  IsDue-updates t first revision never (Memᴰ.head p) = inr (inr (inl (sym p, never _)))
  IsDue-updates t first revision never (Memᴰ.tail (Memᴰ.head p)) =
      inr (inr (inr (inl (sym p, never _))))
  IsDue-updates t first revision never (Memᴰ.tail (Memᴰ.tail (Memᴰ.head p))) =
      inr (inr (inr (inr (inl (sym p, never _)))))
  IsDue-updates t first revision never (Memᴰ.tail (Memᴰ.tail (Memᴰ.tail (Memᴰ.head p)))) =
      inr (inr (inr (inr (inr (inl (sym p, never _))))))
  IsDue-updates t first revision never (Memᴰ.tail (Memᴰ.tail (Memᴰ.tail (Memᴰ.tail m)))) =
      elim m [ ]

  IsDue-deletions :
      (t : Text)
      → ((typ n ns : Text) → NeverRefused (store.delete typ n ns))
      → Memᴰ t deletions
      → IsDue t (absences fakes visits store calm)
  IsDue-deletions t never (Memᴰ.head p) = inl (sym p, never _ _ _)
  IsDue-deletions t never (Memᴰ.tail (Memᴰ.head p)) = inr (inl (sym p, never _ _ _))
  IsDue-deletions t never (Memᴰ.tail (Memᴰ.tail m)) = elim m [ ]

  module _ (ns : Text) (n : ℕ) where
    abbrev elts : Numbered (Entry Message)
    elts = elements_from fakes ns n 0 []

    samples : AreSamples fakes elts
    samples = elements_from-AreSamples fakes ns n 0 [] tt

    some_elements : 0 < n → AreSome fakes visits store calm elts
    some_elements positive = (samples, inhabited n positive)
      where
        inhabited : (n : ℕ) → 0 < n → Inhabited (elements_from fakes ns n 0 [])
        inhabited zero p = absurd (omega arith)
        inhabited (suc m) p = elements-Inhabited fakes visits store calm ns m

    unknown : Bool
    unknown = not (present (get_by_type store.descriptor (fake_config fakes).type))

    -- What is reported once the revisions are known.
    Reports-late :
        (r : Report)
        → ((revs : Numbered Text)
            → Reports r (check_from_revisions fakes visits store ns n elts revs))
        → Reports r (check_map_invariant fakes visits store ns n)
    unfolding check_map_invariant unknown
    Reports-late r k =
        Reports-then r (report_if unknown (text (codes "expected config mock types"))) _
          (Ends-report_if unknown (text (codes "expected config mock types")))
          λ _ _.
            Reports-then r (visited (visits.visit elts)) _
              (Ends-visited fakes visits store calm elts samples)
              λ order s.
                Reports-then r (create_all fakes visits store order) _
                  (Ends-create_all fakes visits store calm order s)
                  λ _ _.
                    Reports-then r (visited (visits.visit elts)) _
                      (Ends-visited fakes visits store calm elts samples)
                      λ order' _.
                        Reports-then r (check_created fakes visits store order' []) _
                          (Ends-check_created fakes visits store calm order' []) λ revs _. k revs

    Reports-creations :
        (x : Error)
        → 0 < n
        → ((e : Entry Message) → Refused x (store.create e))
        → Reports (error x) (check_map_invariant fakes visits store ns n)
    unfolding check_map_invariant unknown
    Reports-creations x positive refused =
        Reports-then (error x) (report_if unknown (text (codes "expected config mock types"))) _
          (Ends-report_if unknown (text (codes "expected config mock types")))
          λ _ _.
            Reports-then (error x) (visited (visits.visit elts)) _
              (visited-AreSome fakes visits store calm elts (some_elements positive))
              λ order s.
                Reports-first (error x) Always (create_all fakes visits store order) _
                  (Reports-create_all fakes visits store calm x order refused s)
                  λ _.
                    Ends-bind Always (visited (visits.visit elts)) _
                      (Ends-visited fakes visits store calm elts samples)
                      λ order' _.
                        Ends-bind Always (check_created fakes visits store order' []) _
                          (Ends-check_created fakes visits store calm order' [])
                          λ revs _.
                            Ends-from_revisions fakes visits store calm ns n elts revs samples

  Reports-check_map_invariant :
      (ns : Text) (n : ℕ) (r : Report)
      → Fault store n r
      → Reports r (check_map_invariant fakes visits store ns n)
  Reports-check_map_invariant ns n r (Fault.creates never t m) = Reports-late ns n (text t) λ revs.
      from_refusals fakes visits store calm ns n _ revs (samples ns n) t
        (IsDue-creations t _ _ never m)
  Reports-check_map_invariant ns n r (Fault.updates_all never t m) =
      Reports-late ns n (text t) λ revs.
        from_refusals fakes visits store calm ns n _ revs (samples ns n) t
          (IsDue-updates t _ _ never m)
  Reports-check_map_invariant ns n r (Fault.deletes never t m) = Reports-late ns n (text t) λ revs.
      from_absent fakes visits store calm ns n _ revs (samples ns n) t (IsDue-deletions t never m)
  Reports-check_map_invariant ns n r (Fault.refused_creations x positive refused) =
      Reports-creations ns n x positive refused
  Reports-check_map_invariant ns zero r (Fault.refused_updates x positive refused) =
      absurd (omega arith)
  Reports-check_map_invariant ns (suc n) r (Fault.refused_updates x positive refused) =
      Reports-late ns (suc n) (error x) λ revs.
        after_absent fakes visits store calm ns (suc n) _ revs (samples ns (suc n)) (error x) (
          Reports-updates fakes visits store calm ns n _ revs (some_elements ns (suc n) positive) x
            refused)
  Reports-check_map_invariant ns n r (Fault.refused_deletions x positive refused) =
      Reports-late ns n (error x) λ revs.
        after_absent fakes visits store calm ns n _ revs (samples ns n) (error x) (
          Reports-deletions fakes visits store calm ns n _ revs (some_elements ns n positive) x
            refused)
  Reports-check_map_invariant ns n r (Fault.lists full) =
      Reports-late ns n (format wanted_none) λ revs.
        after_absent fakes visits store calm ns n _ revs (samples ns n) (format wanted_none)
          (Reports-from_listing fakes visits store calm ns n _ revs (samples ns n) full)

  -- If no creation or update panics at an entry with a fake message or with no type, no deletion
  -- panics, and readings and listings return, then CheckMapInvariant, for every number of elements
  -- and whatever the order in which maps are visited, runs to its end and reports a store that
  -- refuses nothing, or that refuses everything: where no creation returns an error, that posting
  -- twice and posting an invalid object succeeded; where no update does, that putting an invalid or
  -- a missing object, one without a revision and one with a bad revision succeeded; where no
  -- deletion does, that those of a missing type and of a missing element succeeded; where no
  -- listing is empty, that there are elements left at the end; and, with at least one element,
  -- where every creation, every update or every deletion returns one error, that error.
  pub check_map_invariant-reports :
      (n : ℕ) (r : Report)
      → Fault store n r
      → (namespace : Text) (w : W) (reports : List Report)
      → (w' : W) × (new : List Report) × (check_map_invariant fakes visits store namespace n
            (w, reports)
          ≡ (ok tt, (w', reports ++ new)))
        × Memᴰ r new
  check_map_invariant-reports n r fault namespace w reports =
      let (a, w', new, e, m) = Reports-check_map_invariant namespace n r fault w reports in
      (w', new, e, m)
