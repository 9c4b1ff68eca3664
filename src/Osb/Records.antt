-- ===== src/Osb/Records.antt =====
-- The records of serviceBinding.go and serviceInstance.go, which no code of the repository fills yet.
use old_broker_repo.Prelude.{ℕ, Text, Option}
use old_broker_repo.Osb.{Interface}

pub record ServiceBinding : Type 0 where
  pub id : Text
  pub service_id : Text
  pub app_id : Text
  pub service_plan_id : Text
  pub private_key : Text
  pub service_instance_id : Text

pub record CreateServiceBindingResponse : Type 0 where
  pub credentials : Interface

pub record Credential : Type 0 where
  pub public_ip : Text
  pub user_name : Text
  pub private_key : Text

-- The poll interval is a Go `int`; it counts seconds.
pub record LastOperation : Type 0 where
  pub state : Text
  pub description : Text
  pub async_poll_interval_seconds : ℕ

pub record ServiceInstance : Type 0 where
  pub id : Text
  pub dashboard_url : Text
  pub internal_id : Text
  pub service_id : Text
  pub plan_id : Text
  pub organization_guid : Text
  pub space_guid : Text
  pub last_operation : Option LastOperation
  pub parameters : Interface

pub record CreateServiceInstanceResponse : Type 0 where
  pub dashboard_url : Text
  pub last_operation : Option LastOperation
