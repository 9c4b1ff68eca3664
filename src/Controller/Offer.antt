-- ===== src/Controller/Offer.antt =====
-- What a catalog of a list of objects is.
use old_broker_repo.Prelude.{Text, List, [], ◌∷◌, ◌≡◌, map, Permᴰ}
use old_broker_repo.Prelude.Dict.{Dict}
use old_broker_repo.Proto.{Messages}
use old_broker_repo.Config.Resource.{Entry}
use old_broker_repo.Config.BrokerStore.Views.{IsView, IsOffer}
use old_broker_repo.Osb.{Service, Catalog, new_service, new_service_plan}

module _ (msgs : Messages) where
  open msgs use {Message, ServiceClass, as_service_class, as_service_plan}

  -- The service offered for a class: the class's name, id and description, its plans, each once, and
  -- what a new service has in the other fields.
  pub record IsServiceOf (plans : List (Entry Message)) (k : Text) (s : ServiceClass)
      (svc : Service) : Type 0 where
    pub made : svc ≡ record (new_service msgs s) { plans = svc.plans }
    pub name : svc.name ≡ msgs.entry_name (msgs.get_entry s)
    pub id : svc.id ≡ msgs.entry_id (msgs.get_entry s)
    pub description : svc.description ≡ msgs.entry_description (msgs.get_entry s)
    pub all_plans : Dict msgs.ServicePlan
    pub view : IsView as_service_plan plans all_plans
    pub offer : Dict msgs.ServicePlan
    pub offered : IsOffer msgs k all_plans offer
    pub order : Dict msgs.ServicePlan
    pub once : Permᴰ offer order
    pub listed : svc.plans ≡ map (λ e. new_service_plan msgs e.1) order

  -- One service for each class, in the order of the list.
  abbrev pub AreServicesOf : List (Entry Message) → Dict ServiceClass → List Service → Type 0
  AreServicesOf plans [] [] = Unit
  AreServicesOf plans [] (svc ∷ svcs) = ⊥
  AreServicesOf plans ((k, s) ∷ sc) [] = ⊥
  AreServicesOf plans ((k, s) ∷ sc) (svc ∷ svcs) =
      IsServiceOf plans k s svc × AreServicesOf plans sc svcs

  -- The catalog has one service for each class of the store, in some order.
  pub record IsCatalogOf (classes plans : List (Entry Message)) (cat : Catalog) : Type 0 where
    pub all_classes : Dict ServiceClass
    pub view : IsView as_service_class classes all_classes
    pub order : Dict ServiceClass
    pub once : Permᴰ all_classes order
    pub services : AreServicesOf plans order cat.services
