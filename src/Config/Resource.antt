-- ===== src/Config/Resource.antt =====
-- pkg/model/config/resource.go, and the type JSONConfig of schema.go
use old_broker_repo.Prelude.{Text, List}

-- A Go map from strings to strings, read only as a whole.
abbrev pub Labels : Type 0
Labels = List (Text × Text)

pub record Meta : Type 0 where
  pub type : Text
  pub name : Text
  pub namespace : Text
  pub istio_namespace : Text
  pub labels : Labels
  pub annotations : Labels
  pub resource_version : Text

pub record Entry (Message : Type 0) : Type 0 where
  pub meta : Meta
  pub open meta use *
  pub spec : Message

-- A configuration with its content as a decoded JSON or YAML value.
pub record JsonConfig (Value : Type 0) : Type 0 where
  pub meta : Meta
  pub spec : Value
