-- ===== src/Crd/Conversion.antt =====
-- conversion.go: between the broker's entries and Kubernetes objects.
pub mod Round
use old_broker_repo.Prelude.{Text, [], Option, none, some, Result, ok, err, panic, ◌>>=◌}
use old_broker_repo.Config.Resource.{Entry}
use old_broker_repo.Config.Codec.{Codec}
use old_broker_repo.Config.Schema.{Schema, to_json_map, from_json_map}
use old_broker_repo.Crd.Objects.{
  IstioKind, get_spec, set_spec, get_object_meta, set_object_meta, new_object,
}

module _ {Message : Type 0} (c : Codec Message) (nil_map : c.Value) where
  -- A nil map as the decoded value that it is marshalled as.
  abbrev pub map_value : Option c.Value → c.Value
  map_value none = nil_map
  map_value (some v) = v

  -- The object is a pointer.
  unfoldable pub convert_object :
      Schema Message → Option (IstioKind c.Value) → Result (Entry Message)
  unfolding get_spec get_object_meta
  convert_object schema none = panic
  convert_object schema (some object) = do
    value ← from_json_map c schema (map_value (get_spec object))
    let meta = get_object_meta object
    ok (record {
      meta = record {
        type = schema.type;
        name = meta.name;
        namespace = meta.namespace;
        istio_namespace = [];
        labels = meta.labels;
        annotations = meta.annotations;
        resource_version = meta.resource_version;
      };
      spec = value;
    })

  unfoldable pub convert_config : Schema Message → Entry Message → Result (IstioKind c.Value)
  unfolding set_spec set_object_meta
  convert_config schema entry = do
    spec ← to_json_map c entry.spec
    out ← new_object schema.type
    ok (
        set_spec
          (set_object_meta out (record {
            name = entry.name;
            namespace = entry.namespace;
            resource_version = entry.resource_version;
            labels = entry.labels;
            annotations = entry.annotations;
          }))
          (some spec))
