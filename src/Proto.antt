-- ===== src/Proto.antt =====
-- The messages of the broker, which are generated code outside the repository
-- (istio.io/api/broker/v1/config): a parameter of the model.
use old_broker_repo.Prelude.{Text, Option, List}

-- The messages: `Message` is Go's interface `proto.Message`, and the casts are type assertions.
pub record Messages : Type 1 where
  pub Message : Type 0
  pub ServiceClass : Type 0
  pub ServicePlan : Type 0
  pub CatalogEntry : Type 0
  pub CatalogPlan : Type 0
  pub as_service_class : Message → Option ServiceClass
  pub as_service_plan : Message → Option ServicePlan
  -- The generated getters, which accept nil.
  pub get_entry : ServiceClass → CatalogEntry
  pub entry_name : CatalogEntry → Text
  pub entry_id : CatalogEntry → Text
  pub entry_description : CatalogEntry → Text
  pub get_plan : ServicePlan → CatalogPlan
  pub plan_name : CatalogPlan → Text
  pub plan_id : CatalogPlan → Text
  pub plan_description : CatalogPlan → Text
  pub get_services : ServicePlan → List Text
