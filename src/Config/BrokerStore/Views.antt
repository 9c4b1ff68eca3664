-- ===== src/Config/BrokerStore/Views.antt =====
-- What the broker's view of a store shows: the last listed object of each key, and of the plans those
-- that name a service.
use mathlib.Core.Option.{some-injective}
use old_broker_repo.Prelude.{
  Text, List, [], ◌∷◌, Option, none, some, Error, ok, ◌≡◌, ◌≢◌, ◌↔◌, refl, sym, ◌∙◌, arith, ◌==?◌,
  eq_iff, true, Bool-cases, inl, inr, if◌then◌else◌, Memᴰ, ap, subst, Bool, false, Permᴰ,
}
use old_broker_repo.Prelude.Dict.{Dict, lookup, insert, IsDistinct}
use old_broker_repo.Prelude.Dict.Laws.{
  lookup-insert, lookup-fresh, lookup-perm, perm-IsDistinct, insert-IsDistinct,
}
use old_broker_repo.Prelude.Calls.{Ranging}
use old_broker_repo.Proto.{Messages}
use old_broker_repo.Config.Resource.{Entry}
use old_broker_repo.Config.Store.{Store}
use old_broker_repo.Config.BrokerStore.{
  collect, contains, service_class, service_plan, service_classes, service_plans, offering,
  service_plans_by_service,
}
use old_broker_repo.Config.BrokerStore.Collect.{IsLast, collect-IsDistinct, lookup-collect_iff}

-- A map of the last objects with a message of the type: one entry for each key that has one.
pub record IsView {Message C : Type 0} (cast : Message → Option C) (rs : List (Entry Message))
    (d : Dict C) : Type 0 where
  pub distinct : IsDistinct d
  pub holds : (k : Text) (c : C) → (lookup k d ≡ some c) ↔ IsLast cast k rs c

collect-IsView :
    {Message C : Type 0} (cast : Message → Option C) (rs : List (Entry Message))
    → IsView cast rs (collect cast rs [])
collect-IsView cast rs = record {
  distinct = collect-IsDistinct cast rs [] tt;
  holds = λ k c. lookup-collect_iff cast k rs c;
}

tail_of : (s x : Text) (l : List Text) → x ≢ s → Memᴰ s (x ∷ l) → Memᴰ s l
tail_of s x l p (Memᴰ.head e) = absurd (p (sym e))
tail_of s x l p (Memᴰ.tail m) = m

contains_iff : (s : Text) (l : List Text) → (contains s l ≡ true) ↔ Memᴰ s l
unfolding contains
contains_iff s [] = ((λ h. cc), λ m. elim m [ ])
contains_iff s (x ∷ l) = elim (x ==? s) [
  | inl (p, e) ↦ ((λ h. Memᴰ.head (sym p)), λ m. rw e)
  | inr (p, e) ↦
      rw e
        ((λ h. Memᴰ.tail ((contains_iff s l).0 h)), λ m. (contains_iff s l).1 (tail_of s x l p m))
]

if-IsDistinct :
    {V : Type 0} (b : Bool) (j : Text) (v : V) (out : Dict V)
    → IsDistinct out
    → IsDistinct (if b then insert j v out else out)
if-IsDistinct true j v out h = insert-IsDistinct j v out h
if-IsDistinct false j v out h = h

module _ (msgs : Messages) where
  open msgs use {ServicePlan, get_services}

  -- What a plan of the map leaves at its key.
  abbrev kept : Text → Option ServicePlan → Option ServicePlan → Option ServicePlan
  kept service none old = old
  kept service (some v) old = if contains service (get_services v) then some v else old

  lookup-offering :
      (service k : Text) (vs out : Dict ServicePlan)
      → IsDistinct vs
      → lookup k (offering msgs service vs out) ≡ kept service (lookup k vs) (lookup k out)
  unfolding offering lookup
  lookup-offering service k [] out h = refl
  lookup-offering service k ((j, v) ∷ vs) out (f, h) =
      lookup-offering service k vs _ h
      ∙ ground (arith, eq_iff j k, lookup-insert j k v out, lookup-fresh j vs f)

  offering-IsDistinct :
      (service : Text) (vs out : Dict ServicePlan)
      → IsDistinct out
      → IsDistinct (offering msgs service vs out)
  unfolding offering
  offering-IsDistinct service [] out h = h
  offering-IsDistinct service ((j, v) ∷ vs) out h =
      offering-IsDistinct service vs _ (if-IsDistinct (contains service (get_services v)) j v out h)

  -- The plans that name the service, with their keys.
  pub record IsOffer (service : Text) (plans d : Dict ServicePlan) : Type 0 where
    pub distinct : IsDistinct d
    pub holds :
        (k : Text) (v : ServicePlan)
        → (lookup k d ≡ some v) ↔ ((lookup k plans ≡ some v) × Memᴰ service (get_services v))

  not_kept :
      (service : Text) (u v : ServicePlan) {A : Type 0}
      → contains service (get_services u) ≡ false
      → some u ≡ some v
      → Memᴰ service (get_services v)
      → A
  not_kept service u v e p m =
      let q = (contains_iff service (get_services v)).1 m in
      let r = ap (λ x. contains service (get_services x)) (some-injective u v p) in cc

  kept_iff :
      (service : Text) (o : Option ServicePlan) (v : ServicePlan)
      → (kept service o none ≡ some v) ↔ ((o ≡ some v) × Memᴰ service (get_services v))
  kept_iff service none v = ground arith
  kept_iff service (some u) v = elim (Bool-cases (contains service (get_services u))) [
    | inl e ↦
        let named = (contains_iff service (get_services u)).0 e in
        rw e (
          (λ h. (h, subst (λ x. Memᴰ service (get_services x)) (some-injective u v h) named)),
          λ p. p.0,
        )
    | inr e ↦ rw e ((λ h. cc), λ p. not_kept service u v e p.0 p.1)
  ]

  offering-IsOffer :
      (service : Text) (plans order : Dict ServicePlan)
      → IsDistinct plans
      → Permᴰ plans order
      → IsOffer service plans (offering msgs service order [])
  unfolding lookup
  offering-IsOffer service plans order h p = record {
    distinct = offering-IsDistinct service order [] tt;
    holds = λ k v.
        rw (lookup-offering service k order [] (perm-IsDistinct p h), ← lookup-perm k p h)
          (kept_iff service (lookup k plans) v);
  }

module _ {W : Type 0} (msgs : Messages) (ranging : Ranging W) (store : Store W msgs.Message)
    (rs : List (Entry msgs.Message)) (w w' : W) where
  open msgs use {ServiceClass, ServicePlan, as_service_class, as_service_plan}

  -- If the store lists the service classes with no error, then the map of service classes has each
  -- key once, and a key holds exactly the class of the last listed object that has this key and a
  -- service class as its message.
  pub service_classes-IsView :
      store.list (service_class msgs.Message).type [] w ≡ (ok (rs, none), w')
      → (d : Dict ServiceClass) × (service_classes msgs ranging store w ≡ (ok d, w'))
        × IsView as_service_class rs d
  unfolding service_classes
  service_classes-IsView h =
      (collect as_service_class rs [], rw (h), collect-IsView as_service_class rs)

  -- So are the service plans.
  service_plans-IsView :
      store.list (service_plan msgs.Message).type [] w ≡ (ok (rs, none), w')
      → (d : Dict ServicePlan) × (service_plans msgs ranging store w ≡ (ok d, w'))
        × IsView as_service_plan rs d
  unfolding service_plans
  service_plans-IsView h =
      (collect as_service_plan rs [], rw (h), collect-IsView as_service_plan rs)

  -- An error of the store hides everything that was listed, and no error is returned.
  pub views_of_error :
      (e : Error)
      → store.list (service_class msgs.Message).type [] w ≡ (ok (rs, some e), w')
      → service_classes msgs ranging store w ≡ (ok [], w')
  unfolding service_classes
  views_of_error e h = rw h

  -- If the store lists the service plans with no error, then the plans of a service are exactly the
  -- plans of the view that name the service, under their keys and each key once, in whatever order
  -- the map of plans is visited.
  pub service_plans_by_service-IsOffer :
      (service : Text)
      → store.list (service_plan msgs.Message).type [] w ≡ (ok (rs, none), w')
      → (plans d : Dict ServicePlan) × IsView as_service_plan rs plans
        × IsOffer msgs service plans d
        × (service_plans_by_service msgs ranging store service w
            ≡ (ok d, (ranging.visit plans w').1))
  unfolding service_plans_by_service
  service_plans_by_service-IsOffer service h =
      let plans = collect as_service_plan rs [] in
      let view = collect-IsView as_service_plan rs in
      (
        plans,
        offering msgs service (ranging.visit plans w').0 [],
        view,
        offering-IsOffer msgs service plans _ view.distinct (ranging.visit_perm plans w'),
        rw h,
      )
