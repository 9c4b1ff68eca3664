-- ===== src/Controller/Faithful.antt =====
-- The catalog lists what the store holds.
use mathlib.Core.List.{append-nil}
use old_broker_repo.Prelude.{
  Text, List, [], ◌∷◌, ◌++◌, none, ok, ◌≡◌, ◌∙◌, ap, refl, map, Permᴰ, concat_assoc,
}
use old_broker_repo.Prelude.Dict.{Dict}
use old_broker_repo.Prelude.Calls.{Ranging}
use old_broker_repo.Proto.{Messages}
use old_broker_repo.Config.Resource.{Entry}
use old_broker_repo.Config.Store.{Store}
use old_broker_repo.Config.BrokerStore.{
  BrokerConfigStore, service_class, service_plan, make_broker_config_store,
}
use old_broker_repo.Config.BrokerStore.Views.{
  IsView, IsOffer, service_classes-IsView, service_plans_by_service-IsOffer,
}
use old_broker_repo.Osb.{Service, Catalog, add_plan, add_service, new_service, new_service_plan}
use old_broker_repo.Controller.Offer.{IsServiceOf, AreServicesOf, IsCatalogOf}
use old_broker_repo.Controller.{add_plans, add_services, catalog}

-- The loop appends the plans in the order of the visit.
add_plans_lem :
    (msgs : Messages) (plans : Dict msgs.ServicePlan) (js : Service)
    → add_plans msgs plans js
      ≡ record js { plans = js.plans ++ map (λ e. new_service_plan msgs e.1) plans }
unfolding add_plans add_plan
add_plans_lem msgs [] js = rw append-nil
add_plans_lem msgs ((k, p) ∷ plans) js =
    add_plans_lem msgs plans (add_plan js (new_service_plan msgs p))
    ∙ rw (concat_assoc js.plans (new_service_plan msgs p))

module _ {W : Type 0} (msgs : Messages) (ranging : Ranging W) (store : Store W msgs.Message) where
  open msgs use {Message, ServiceClass, as_service_class, as_service_plan}

  -- The store lists these classes and plans with no error in every world that satisfies `Steady`,
  -- and neither listing nor visiting a map leaves those worlds.
  pub record IsSteady (Steady : W → Type 0) (classes plans : List (Entry Message)) : Type 1 where
    pub listed_classes :
        (w : W)
        → Steady w
        → (w' : W) × (store.list (service_class Message).type [] w ≡ (ok (classes, none), w'))
          × Steady w'
    pub listed_plans :
        (w : W)
        → Steady w
        → (w' : W) × (store.list (service_plan Message).type [] w ≡ (ok (plans, none), w'))
          × Steady w'
    pub visited : (V : Type 0) (m : Dict V) (w : W) → Steady w → Steady (ranging.visit m w).1

  module _ {Steady : W → Type 0} {classes plans : List (Entry Message)}
      (steady : IsSteady Steady classes plans) where
    abbrev bcs : BrokerConfigStore W msgs
    bcs = make_broker_config_store msgs ranging store

    service_of :
        {k : Text} {s : ServiceClass} {all offer order : Dict msgs.ServicePlan}
        → IsView as_service_plan plans all
        → IsOffer msgs k all offer
        → Permᴰ offer order
        → IsServiceOf msgs plans k s (add_plans msgs order (new_service msgs s))
    unfolding new_service
    service_of {s} {all} {offer} {order} v o p = record {
      made = rw (add_plans_lem msgs order (new_service msgs s)) refl;
      name = ap (λ x. x.name) (add_plans_lem msgs order (new_service msgs s));
      id = ap (λ x. x.id) (add_plans_lem msgs order (new_service msgs s));
      description = ap (λ x. x.description) (add_plans_lem msgs order (new_service msgs s));
      all_plans = all;
      view = v;
      offer = offer;
      offered = o;
      order = order;
      once = p;
      listed = ap (λ x. x.plans) (add_plans_lem msgs order (new_service msgs s));
    }

    add_services_lem :
        (sc : Dict ServiceClass) (jc : Catalog) (w : W)
        → Steady w
        → (svcs : List Service) × (w' : W) × (add_services msgs ranging bcs sc jc w
            ≡ (ok (record { services = jc.services ++ svcs }), w'))
          × Steady w'
          × AreServicesOf msgs plans sc svcs
    unfolding add_services make_broker_config_store add_service
    add_services_lem [] jc w h = ([], w, rw append-nil, h, tt)
    add_services_lem ((k, s) ∷ sc) jc w h =
        let (w₁, e₁, h₁) = steady.listed_plans w h in
        let (all, offer, v, o, e₂) =
          service_plans_by_service-IsOffer msgs ranging store plans w w₁ k e₁ in
        let w₂ = (ranging.visit all w₁).1 in
        let (order, w₃) = ranging.visit offer w₂ in
        let h₃ = steady.visited _ offer w₂ (steady.visited _ all w₁ h₁) in
        let svc = add_plans msgs order (new_service msgs s) in
        let (svcs, w₄, e₄, h₄, a) = add_services_lem sc (add_service jc svc) w₃ h₃ in
        (
          svc ∷ svcs,
          w₄,
          rw (e₂, ← concat_assoc jc.services svc svcs) e₄,
          h₄,
          (service_of v o (ranging.visit_perm offer w₂), a),
        )

    -- Where the store lists the classes and the plans with no error, whatever requests came before,
    -- a catalog request gives a catalog with one service for each service class that the store
    -- shows, in some order, each with the class's name, id and description and with exactly the
    -- plans that name the class's key, each once; the world stays one in which the store lists
    -- them.
    pub catalog-IsCatalogOf :
        (w : W)
        → Steady w
        → (cat : Catalog) × (w' : W) × (catalog msgs ranging bcs w ≡ (ok cat, w'))
          × Steady w'
          × IsCatalogOf msgs classes plans cat
    unfolding catalog make_broker_config_store
    catalog-IsCatalogOf w h =
        let (w₁, e₁, h₁) = steady.listed_classes w h in
        let (sc, e₂, v) = service_classes-IsView msgs ranging store classes w w₁ e₁ in
        let (order, w₂) = ranging.visit sc w₁ in
        let h₂ = steady.visited _ sc w₁ h₁ in
        let (svcs, w₃, e₃, h₃, a) = add_services_lem order (record { services = [] }) w₂ h₂ in
        (
          record { services = svcs },
          w₃,
          rw e₂ e₃,
          h₃,
          record {
            all_classes = sc;
            view = v;
            order = order;
            once = ranging.visit_perm sc w₁;
            services = a;
          },
        )
