-- ===== src/Config/Descriptor.antt =====
-- pkg/model/config/schema.go: groups of schemas, and whole configurations as JSON and YAML.
pub mod Lookup
pub mod Round
use old_broker_repo.Prelude.{
  Text, codes, List, [], ◌∷◌, Option, none, some, Result, ok, err, errorf, wrapped, lift, map_err,
  ◌>>=◌, ◌>>◌, ◌==◌, if◌then◌else◌, map,
}
use old_broker_repo.Config.Resource.{Meta, Entry, JsonConfig}
use old_broker_repo.Config.Codec.{Codec}
use old_broker_repo.Config.Schema.{Schema, to_json_map, from_json_map, validate}

abbrev pub Descriptor : Type 0 → Type 0
Descriptor Message = List (Schema Message)

module _ {Message : Type 0} where
  -- The loop that appends each schema's type to `ts`.
  unfoldable pub types : Descriptor Message → List Text
  types d = map (λ t. t.type) d

  -- The schema, with `none` for Go's `Schema{}, false`.
  unfoldable pub get_by_message_name : Descriptor Message → Text → Option (Schema Message)
  get_by_message_name [] name = none
  get_by_message_name (s ∷ d) name =
      if s.message_name == name then some s else get_by_message_name d name

  unfoldable pub get_by_type : Descriptor Message → Text → Option (Schema Message)
  get_by_type [] name = none
  get_by_type (s ∷ d) name = if s.type == name then some s else get_by_type d name

module _ {Message : Type 0} (c : Codec Message) where
  open c use {Value, yaml_marshal, yaml_unmarshal}

  -- `FromJSON`, from the schema that was found on.
  unfoldable pub from_json_with : Schema Message → JsonConfig Value → Result (Entry Message)
  from_json_with s json = do
    m ← map_err (wrapped (codes "cannot parse proto message: %v")) (from_json_map c s json.spec)
    validate c s m
    ok (record { meta = json.meta; spec = m })

  unfoldable pub from_json : Descriptor Message → JsonConfig Value → Result (Entry Message)
  unfolding from_json_with
  from_json d json = elim (get_by_type d json.meta.type) [
    | none ↦ err (errorf (codes "unknown spec type %s") (json.meta.type ∷ []))
    | some s ↦ from_json_with s json
  ]

  unfoldable pub from_yaml : Descriptor Message → Text → Result (Entry Message)
  from_yaml d content = do out ← lift (yaml_unmarshal content); from_json d out

  unfoldable pub to_yaml : Descriptor Message → Entry Message → Result Text
  to_yaml d entry = elim (get_by_type d entry.type) [
    | none ↦ err (errorf (codes "missing type %q") (entry.type ∷ []))
    | some s ↦ do
      spec ← to_json_map c entry.spec
      lift (yaml_marshal (record { meta = entry.meta; spec = spec }))
  ]
