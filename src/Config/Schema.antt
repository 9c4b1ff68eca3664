-- ===== src/Config/Schema.antt =====
-- pkg/model/config/schema.go: the schema of one configuration type, and its conversions.
pub mod Round
pub mod Validation
use old_broker_repo.Prelude.{
  Text, codes, List, [], ◌∷◌, ◌++◌, Bool, not, Option, none, some, Error, Result, ok, err, errorf,
  prefixed, lift, map_err, ◌>>=◌, ◌>>◌, if◌then◌else◌,
}
use old_broker_repo.Config.Label.{is_dns1123_label}
use old_broker_repo.Config.Codec.{Codec}

pub record Schema (Message : Type 0) : Type 0 where
  pub type : Text
  pub plural : Text
  pub message_name : Text
  -- `nil` is `none`; the function may panic, as a failed type assertion does.
  pub additional_validate : Option (Message → Result (Unit {0}))

module _ {Message : Type 0} (c : Codec Message) where
  open c use {
    Value, message_type, marshal_to_string, unmarshal_string, json_unmarshal, yaml2_marshal,
    json_to_yaml, yaml_to_json,
  }

  unfoldable pub make : Schema Message → Result Message
  make b = elim (message_type b.message_name) [
    | none ↦ err (errorf (codes "unknown type %q") (b.message_name ∷ []))
    | some empty ↦ ok empty
  ]

  unfoldable pub to_json : Message → Result Text
  to_json msg = marshal_to_string msg

  unfoldable pub to_yaml : Message → Result Text
  unfolding to_json
  to_yaml msg = do js ← to_json msg; lift (json_to_yaml js)

  unfoldable pub to_json_map : Message → Result Value
  unfolding to_json
  to_json_map msg = do js ← to_json msg; lift (json_unmarshal js)

  unfoldable apply_json : Text → Message → Result Message
  apply_json js pb = lift (unmarshal_string js pb)

  unfoldable pub from_json : Schema Message → Text → Result Message
  unfolding make apply_json
  from_json b js = do pb ← make b; apply_json js pb

  unfoldable apply_yaml : Text → Message → Result Message
  unfolding apply_json
  apply_yaml yml pb = do js ← lift (yaml_to_json yml); apply_json js pb

  unfoldable pub from_yaml : Schema Message → Text → Result Message
  unfolding make apply_yaml
  from_yaml b yml = do pb ← make b; apply_yaml yml pb

  unfoldable pub from_json_map : Schema Message → Value → Result Message
  unfolding from_yaml
  from_json_map b value = do
    str ← lift (yaml2_marshal value)
    map_err (λ e. prefixed e (codes "YAML decoding error: " ++ str)) (from_yaml b str)

  -- `AdditionalValidate(config)`, if it is set.
  unfoldable pub run_additional : Option (Message → Result (Unit {0})) → Message → Result (Unit {0})
  run_additional none config = ok tt
  run_additional (some check) config = check config

  unfoldable pub validate : Schema Message → Message → Result (Unit {0})
  unfolding run_additional
  validate b config =
      if not (is_dns1123_label b.type)
      then err (errorf (codes "invalid type: %q") (b.type ∷ []))
      else if not (is_dns1123_label b.plural)
      then err (errorf (codes "invalid plural: %q") (b.plural ∷ []))
      else elim (message_type b.message_name) [
        | none ↦ err (errorf (codes "cannot discover proto message type: %q") (b.message_name ∷ []))
        | some _ ↦ run_additional b.additional_validate config
      ]
