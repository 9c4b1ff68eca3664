-- ===== src/Mock/Checks/Map/Loops.antt =====
-- The loops of the check of a map, where every write of a kind is refused.
use mathlib.Core.List.{append_assoc}
use old_broker_repo.Prelude.{
  ℕ, zero, suc, Text, [], ◌∷◌, ◌++◌, Error, ok, err, inl, inr, ◌≡◌, refl, ap, ◌∙◌, Memᴰ, Act,
  Bool-cases, byte_eq,
}
use mathlib.Core.List.{append-nil}
use old_broker_repo.Prelude.Dict.Laws.{All-perm}
use old_broker_repo.Prelude.Dict.Members.{mem-perm}
use old_broker_repo.Prelude.Calls.{◌>>=◌, ◌>>◌}
use old_broker_repo.Config.Resource.{Entry}
use old_broker_repo.Config.Store.{Store}
use old_broker_repo.Mock.{Fakes, make}
use old_broker_repo.Mock.Checks.{Run, report, attempt, must, error}
use old_broker_repo.Mock.Checks.Ending.{Ends, Always, Ends-pure, Ends-bind, must-Ends}
use old_broker_repo.Mock.Checks.Due.{Reports, Reports-then, Reports-first}
use old_broker_repo.Mock.Checks.Map.{
  Numbered, put, value_at, Visits, visited, elements_from, updated, create_all, check_updated,
  update_all, delete_all, check_count, check_from_listing, list_error, wanted_n, wanted_none,
}
use old_broker_repo.Mock.Checks.Map.Samples.{
  AreSamples, IsCalm, IsSample, put-AreSamples, updated-IsSample,
}
use old_broker_repo.Mock.Checks.Map.Ends.{
  Ends-create_all, Ends-check_updated, Ends-update_all, Ends-delete_all, Ends-check_count,
}

-- A map that is not empty.
abbrev pub Inhabited : {V : Type 0} → Numbered V → Type 0
Inhabited {V} m = (p : ℕ × V) × Memᴰ p m

put-Inhabited : {V : Type 0} (i : ℕ) (v : V) (m : Numbered V) → Inhabited (put i v m)
unfolding put
put-Inhabited i v [] = (_, Memᴰ.head refl)
put-Inhabited i v ((j, u) ∷ m) = elim (Bool-cases (byte_eq i j)) [
  | inl b ↦ rw b (_, Memᴰ.head refl)
  | inr b ↦ rw b (_, Memᴰ.head refl)
]

module _ {W A : Type 0} where
  -- A call that is always refused with the error.
  abbrev pub Refused : Error → Act W A → Type 0
  Refused x m = (w : W) → (m w).0 ≡ err x

  Refused-Reports :
      {B : Type 0} (Q : B → Type 0) (m : Act W A) (x : Error) (rest : Run W B)
      → Refused x m
      → Ends Q rest
      → Reports (error x) (attempt m >>= λ r. must error r >> rest)
  unfolding attempt must report
  Refused-Reports Q m x rest refused h w reports =
      let (b, w', new, e, _) = h (m w).1 (reports ++ error x ∷ []) in
      (
        b,
        w',
        error x ∷ new,
        rw (refused w) (e ∙ ap (λ l. (ok b, (w', l))) (append_assoc reports (error x ∷ []) new)),
        Memᴰ.head refl,
      )

module _ {W Message : Type 0} (fakes : Fakes Message) (visits : Visits W) (store : Store W Message)
    (calm : IsCalm fakes store) where
  abbrev pub AreSome : Numbered (Entry Message) → Type 0
  AreSome elts = AreSamples fakes elts × Inhabited elts

  elements_from-Inhabited :
      (ns : Text) (n i : ℕ) (elts : Numbered (Entry Message))
      → Inhabited elts
      → Inhabited (elements_from fakes ns n i elts)
  unfolding elements_from
  elements_from-Inhabited ns zero i elts h = h
  elements_from-Inhabited ns (suc n) i elts h =
      elements_from-Inhabited ns n (suc i) _ (put-Inhabited i (make fakes ns i) elts)

  pub elements-Inhabited : (ns : Text) (n : ℕ) → Inhabited (elements_from fakes ns (suc n) 0 [])
  unfolding elements_from
  elements-Inhabited ns n = elements_from-Inhabited ns n 1 _ (put-Inhabited 0 (make fakes ns 0) [])

  pub visited-AreSome :
      (elts : Numbered (Entry Message)) → AreSome elts → Ends AreSome (visited (visits.visit elts))
  unfolding visited
  visited-AreSome elts (h, (p, m)) w reports =
      let (order, w') = visits.visit elts w in
      (
        order,
        w',
        [],
        rw append-nil refl,
        (
          All-perm (λ p. IsSample fakes p.1) (visits.visit_perm elts w) h,
          (p, mem-perm (visits.visit_perm elts w) m),
        ),
      )

  visited-Ends : (elts : Numbered (Entry Message)) → Ends Always (visited (visits.visit elts))
  unfolding visited
  visited-Ends elts w reports =
      let (order, w') = visits.visit elts w in (order, w', [], rw append-nil refl, tt)

  update_all-AreSome :
      (ns : Text) (revs : Numbered Text) (left i : ℕ) (elts : Numbered (Entry Message))
      → AreSome elts
      → Ends AreSome (update_all fakes visits store ns revs left i elts)
  unfolding update_all
  update_all-AreSome ns revs zero i elts h = Ends-pure AreSome elts h
  update_all-AreSome ns revs (suc left) i elts (h, _) =
      let elt = updated fakes ns i (value_at [] i revs) in
      let sample = updated-IsSample fakes ns i (value_at [] i revs) in
      must-Ends AreSome (store.update elt) error _ (calm.updates elt sample) (
        update_all-AreSome ns revs left (suc i) _
          (put-AreSamples fakes i elt elts sample h, put-Inhabited i elt elts))

  pub Reports-create_all :
      (x : Error) (elts : Numbered (Entry Message))
      → ((e : Entry Message) → Refused x (store.create e))
      → AreSome elts
      → Reports (error x) (create_all fakes visits store elts)
  unfolding create_all
  Reports-create_all x [] refused (h, (p, m)) = elim m [ ]
  Reports-create_all x ((i, elt) ∷ elts) refused ((_, h), _) =
      Refused-Reports Always (store.create elt) x _ (refused elt)
        (Ends-create_all fakes visits store calm elts h)

  Reports-update_all :
      (x : Error) (ns : Text) (revs : Numbered Text) (left i : ℕ) (elts : Numbered (Entry Message))
      → ((e : Entry Message) → Refused x (store.update e))
      → AreSamples fakes elts
      → Reports (error x) (update_all fakes visits store ns revs (suc left) i elts)
  unfolding update_all
  Reports-update_all x ns revs left i elts refused h =
      let elt = updated fakes ns i (value_at [] i revs) in
      let sample = updated-IsSample fakes ns i (value_at [] i revs) in
      Refused-Reports (AreSamples fakes) (store.update elt) x _ (refused elt) (
        Ends-update_all fakes visits store calm ns revs left (suc i) _
          (put-AreSamples fakes i elt elts sample h))

  Reports-delete_all :
      (x : Error) (elts order : Numbered (Entry Message))
      → ((typ n ns : Text) → Refused x (store.delete typ n ns))
      → Inhabited order
      → Reports (error x) (delete_all fakes visits store elts order)
  unfolding delete_all
  Reports-delete_all x elts [] refused (p, m) = elim m [ ]
  Reports-delete_all x elts ((i, elt) ∷ order) refused h =
      Refused-Reports Always (store.delete _ _ _) x _ (refused _ _ _)
        (Ends-delete_all fakes visits store calm elts order)

  module _ (ns : Text) (n : ℕ) (elts : Numbered (Entry Message)) (revs : Numbered Text)
      (h : AreSome elts) (x : Error) where
    pub Reports-updates :
        ((e : Entry Message) → Refused x (store.update e))
        → Reports (error x) (check_from_listing fakes visits store ns (suc n) elts revs)
    unfolding check_from_listing
    Reports-updates refused =
        Reports-then (error x) (check_count fakes visits store ns (suc n) list_error wanted_n) _
          (Ends-check_count fakes visits store calm ns (suc n) list_error wanted_n)
          λ _ _.
            Reports-first (error x) Always (update_all fakes visits store ns revs (suc n) 0 elts) _
              (Reports-update_all x ns revs n 0 elts refused h.0)
              λ elts'.
                Ends-bind Always (visited (visits.visit elts')) _ (visited-Ends elts') λ order _.
                  Ends-bind Always (check_updated fakes visits store elts' order) _
                    (Ends-check_updated fakes visits store calm elts' order)
                    λ _ _.
                      Ends-bind Always (visited (visits.visit elts')) _ (visited-Ends elts')
                        λ order' _.
                          Ends-bind Always (delete_all fakes visits store elts' order') _
                            (Ends-delete_all fakes visits store calm elts' order')
                            λ _ _. Ends-check_count fakes visits store calm ns 0 error wanted_none

    pub Reports-deletions :
        ((typ n ns : Text) → Refused x (store.delete typ n ns))
        → Reports (error x) (check_from_listing fakes visits store ns n elts revs)
    unfolding check_from_listing
    Reports-deletions refused =
        Reports-then (error x) (check_count fakes visits store ns n list_error wanted_n) _
          (Ends-check_count fakes visits store calm ns n list_error wanted_n)
          λ _ _.
            Reports-then (error x) (update_all fakes visits store ns revs n 0 elts) _
              (update_all-AreSome ns revs n 0 elts h)
              λ elts' h'.
                Reports-then (error x) (visited (visits.visit elts')) _ (visited-AreSome elts' h')
                  λ order _.
                    Reports-then (error x) (check_updated fakes visits store elts' order) _
                      (Ends-check_updated fakes visits store calm elts' order)
                      λ _ _.
                        Reports-then (error x) (visited (visits.visit elts')) _
                          (visited-AreSome elts' h')
                          λ order' s.
                            Reports-first (error x) Always
                              (delete_all fakes visits store elts' order') _
                              (Reports-delete_all x elts' order' refused s.1)
                              λ _. Ends-check_count fakes visits store calm ns 0 error wanted_none
