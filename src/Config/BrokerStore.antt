-- ===== src/Config/BrokerStore.antt =====
-- pkg/model/config/store.go: the broker's configuration types and its view of a store.
pub mod Collect
pub mod Last
pub mod Views
use old_broker_repo.Prelude.{
  Text, codes, List, [], ◌∷◌, Bool, true, false, Option, none, some, Error, Act, ◌==◌,
  if◌then◌else◌,
}
use old_broker_repo.Prelude.Dict.{Dict, insert}
use old_broker_repo.Prelude.Calls.{pure, run, ◌>>=◌, Ranging}
use old_broker_repo.Proto.{Messages}
use old_broker_repo.Config.Resource.{Entry}
use old_broker_repo.Config.Schema.{Schema}
use old_broker_repo.Config.Descriptor.{Descriptor}
use old_broker_repo.Config.Store.{Store, entry_key}

abbrev pub istio_api_group : Text
istio_api_group = codes "config.istio.io"

abbrev pub istio_api_version : Text
istio_api_version = codes "v1alpha2"

abbrev pub service_class : (Message : Type 0) → Schema Message
service_class Message = record {
  type = codes "service-class";
  plural = codes "service-classes";
  message_name = codes "istio.broker.v1.config.ServiceClass";
  additional_validate = none;
}

abbrev pub service_plan : (Message : Type 0) → Schema Message
service_plan Message = record {
  type = codes "service-plan";
  plural = codes "service-plans";
  message_name = codes "istio.broker.v1.config.ServicePlan";
  additional_validate = none;
}

abbrev pub broker_config_types : (Message : Type 0) → Descriptor Message
broker_config_types Message = service_class Message ∷ service_plan Message ∷ []

-- The interface `BrokerConfigStore`.
pub record BrokerConfigStore (W : Type 0) (msgs : Messages) : Type 0 where
  pub service_classes : Act W (Dict msgs.ServiceClass)
  pub service_plans : Act W (Dict msgs.ServicePlan)
  pub service_plans_by_service : Text → Act W (Dict msgs.ServicePlan)

-- `for _, r := range rs { if c, ok := r.Spec.(*C); ok { out[r.Key()] = c } }`
unfoldable pub collect :
    {Message C : Type 0} → (Message → Option C) → List (Entry Message) → Dict C → Dict C
collect cast [] out = out
collect cast (r ∷ rs) out =
    collect cast rs (elim (cast r.spec) [ none ↦ out | some c ↦ insert (entry_key r) c out ])

-- The entries that were listed, or nothing on an error.
unfoldable collected :
    {Message C : Type 0} → (Message → Option C) → List (Entry Message) × Option Error → Dict C
collected cast (rs, none) = collect cast rs []
collected cast (rs, some e) = []

-- `for _, s := range services { if s == service { …; break } }`: whether the body runs.
unfoldable pub contains : Text → List Text → Bool
contains service [] = false
contains service (s ∷ services) = if s == service then true else contains service services

module _ (msgs : Messages) where
  open msgs use {ServicePlan, get_services}

  -- The loop over the plans, in the order of the visit.
  unfoldable pub offering : Text → Dict ServicePlan → Dict ServicePlan → Dict ServicePlan
  unfolding contains
  offering service [] out = out
  offering service ((k, v) ∷ rs) out =
      offering service rs (if contains service (get_services v) then insert k v out else out)

module _ {W : Type 0} (msgs : Messages) (ranging : Ranging W) (store : Store W msgs.Message) where
  open msgs use {ServiceClass, ServicePlan, as_service_class, as_service_plan}

  unfoldable pub service_classes : Act W (Dict ServiceClass)
  unfolding collected
  service_classes = do
    listed ← store.list (service_class msgs.Message).type []
    pure (collected as_service_class listed)

  unfoldable pub service_plans : Act W (Dict ServicePlan)
  unfolding collected
  service_plans = do
    listed ← store.list (service_plan msgs.Message).type []
    pure (collected as_service_plan listed)

  unfoldable pub service_plans_by_service : Text → Act W (Dict ServicePlan)
  unfolding offering service_plans
  service_plans_by_service service = do
    rs ← service_plans
    order ← run (ranging.visit rs)
    pure (offering msgs service order [])

  unfoldable pub make_broker_config_store : BrokerConfigStore W msgs
  make_broker_config_store = record {
    service_classes = service_classes;
    service_plans = service_plans;
    service_plans_by_service = service_plans_by_service;
  }
