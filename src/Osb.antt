-- ===== src/Osb.antt =====
-- pkg/model/osb: the Open Service Broker types and how they are made of the broker's messages.
pub mod Records
use old_broker_repo.Prelude.{Text, List, [], ◌∷◌, ◌++◌, Bool, false}
use old_broker_repo.Proto.{Messages}

-- Go's `interface{}` in a field: nil, or a value known by its JSON text.
pub data Interface : Type 0 where
  nil : Interface
  value : Text → Interface

-- servicePlan.go
pub record ServicePlan : Type 0 where
  pub name : Text
  pub id : Text
  pub description : Text
  pub metadata : Interface
  pub free : Bool

-- service.go; a nil slice is the empty list.
pub record Service : Type 0 where
  pub name : Text
  pub id : Text
  pub description : Text
  pub bindable : Bool
  pub plan_updateable : Bool
  pub tags : List Text
  pub requires : List Text
  pub metadata : Interface
  pub plans : List ServicePlan
  pub dashboard_client : Interface

-- catalog.go; a nil slice is the empty list.
pub record Catalog : Type 0 where
  pub services : List Service

unfoldable pub add_service : Catalog → Service → Catalog
add_service c service = record c { services = c.services ++ service ∷ [] }

unfoldable pub add_plan : Service → ServicePlan → Service
add_plan s plan = record s { plans = s.plans ++ plan ∷ [] }

module _ (msgs : Messages) where
  open msgs use {
    get_entry, entry_name, entry_id, entry_description, get_plan, plan_name, plan_id,
    plan_description,
  }

  unfoldable pub new_service : msgs.ServiceClass → Service
  new_service sp =
      let cs = get_entry sp in
      record {
        name = entry_name cs;
        id = entry_id cs;
        description = entry_description cs;
        bindable = false;
        plan_updateable = false;
        tags = [];
        requires = [];
        metadata = nil;
        plans = [];
        dashboard_client = nil;
      }

  unfoldable pub new_service_plan : msgs.ServicePlan → ServicePlan
  new_service_plan sp =
      let cp = get_plan sp in
      record {
        name = plan_name cp;
        id = plan_id cp;
        description = plan_description cp;
        metadata = nil;
        free = false;
      }
