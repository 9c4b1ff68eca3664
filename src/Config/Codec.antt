-- ===== src/Config/Codec.antt =====
-- The encodings that schema.go calls and the repository does not hold: golang/protobuf (registry and
-- jsonpb), encoding/json, ghodss/yaml and yaml.v2. They are a parameter; the laws that a theorem
-- relies on are the record `CodecLaws`.
use old_broker_repo.Prelude.{Text, Error, Result, ok, Option, some, ◌⊎◌, inr, ◌≡◌}
use old_broker_repo.Config.Resource.{JsonConfig}

pub record Codec (Message : Type 0) : Type 1 where
  -- A decoded JSON or YAML value, Go's `interface{}`.
  pub Value : Type 0
  -- `proto.MessageType`, with the empty message that `reflect.New` makes of the type it finds.
  pub message_type : Text → Option Message
  -- `jsonpb.Marshaler.MarshalToString`, which panics at some messages that are nil or hold nil, and
  -- `jsonpb.UnmarshalString` into a message.
  pub marshal_to_string : Message → Result Text
  pub unmarshal_string : Text → Message → Error ⊎ Message
  -- `json.Unmarshal` into a map, and `yaml2.Marshal`.
  pub json_unmarshal : Text → Error ⊎ Value
  pub yaml2_marshal : Value → Error ⊎ Text
  -- `yaml.JSONToYAML` and `yaml.YAMLToJSON`.
  pub json_to_yaml : Text → Error ⊎ Text
  pub yaml_to_json : Text → Error ⊎ Text
  -- `yaml.Marshal` and `yaml.Unmarshal` at `JSONConfig`.
  pub yaml_marshal : JsonConfig Value → Error ⊎ Text
  pub yaml_unmarshal : Text → Error ⊎ JsonConfig Value

module _ {Message : Type 0} (c : Codec Message) (message_name : Message → Text) where
  open c use {
    Value, message_type, marshal_to_string, unmarshal_string, json_unmarshal, yaml2_marshal,
    json_to_yaml, yaml_to_json, yaml_marshal, yaml_unmarshal,
  }

  -- What the libraries document of their encodings. `message_name` is `proto.MessageName`.
  pub record CodecLaws : Type 0 where
    -- jsonpb reads back, into an empty message of the type, what it wrote.
    pub jsonpb_round :
        {empty m : Message} {js : Text}
        → message_type (message_name m) ≡ some empty
        → marshal_to_string m ≡ ok js
        → unmarshal_string js empty ≡ inr m
    -- jsonpb depends on the JSON value alone, not on its spelling.
    pub jsonpb_value :
        {js js' : Text} {v : Value} (pb : Message)
        → json_unmarshal js ≡ inr v
        → json_unmarshal js' ≡ inr v
        → unmarshal_string js pb ≡ unmarshal_string js' pb
    -- What jsonpb writes is JSON.
    pub jsonpb_json :
        {m : Message} {js : Text}
        → marshal_to_string m ≡ ok js
        → (v : Value) × (json_unmarshal js ≡ inr v)
    -- YAML holds every decoded JSON value.
    pub yaml2_round :
        {js : Text} {v : Value}
        → json_unmarshal js ≡ inr v
        → (y js' : Text) × (yaml2_marshal v ≡ inr y)
          × (yaml_to_json y ≡ inr js')
          × (json_unmarshal js' ≡ inr v)
    pub yaml_round :
        {js : Text} {v : Value}
        → json_unmarshal js ≡ inr v
        → (y js' : Text) × (json_to_yaml js ≡ inr y)
          × (yaml_to_json y ≡ inr js')
          × (json_unmarshal js' ≡ inr v)
    -- ghodss/yaml reads back the configuration that it wrote.
    pub yaml_config_round :
        {j : JsonConfig Value} {y : Text} → yaml_marshal j ≡ inr y → yaml_unmarshal y ≡ inr j
