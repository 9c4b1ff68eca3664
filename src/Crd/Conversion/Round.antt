-- ===== src/Crd/Conversion/Round.antt =====
-- An entry survives the way to a Kubernetes object and back.
use old_broker_repo.Prelude.{Text, [], none, some, ok, ◌≡◌, ◌≢◌, refl}
use old_broker_repo.Config.Resource.{Entry}
use old_broker_repo.Config.Codec.{Codec, CodecLaws}
use old_broker_repo.Config.Schema.{Schema}
use old_broker_repo.Config.Schema.Round.{from_json_map-to_json_map}
use old_broker_repo.Crd.Objects.{IstioKind, known_types, set_spec, set_object_meta}
use old_broker_repo.Crd.Objects.Copies.{new_object_known}
use old_broker_repo.Crd.Conversion.{convert_object, convert_config}

module _ {Message : Type 0} (c : Codec Message) (nil_map : c.Value) {message_name : Message → Text}
    (laws : CodecLaws c message_name) (b : Schema Message) (e : Entry Message) {empty : Message}
    {js : Text} (registered : c.message_type (message_name e.spec) ≡ some empty)
    (named : b.message_name ≡ message_name e.spec) (marshalled : c.marshal_to_string e.spec ≡ ok js)
    (known : known_types {Value = c.Value} b.type ≢ none) where
  -- An entry with a message of its schema's registered type that jsonpb can write, and with a
  -- schema of a known type, is converted to an object with the entry's name, namespace and
  -- revision; the object is converted back to the entry, but for the type, which becomes the
  -- schema's, and the Istio namespace, which is lost.
  pub convert_object-convert_config :
      (k : IstioKind c.Value) × (convert_config c nil_map b e ≡ ok k)
      × (k.object_meta.name ≡ e.name)
      × (k.object_meta.namespace ≡ e.namespace)
      × (k.object_meta.resource_version ≡ e.resource_version)
      × (convert_object c nil_map b (some k)
          ≡ ok (record e { meta = record (e.meta) { type = b.type; istio_namespace = [] } }))
  unfolding convert_config convert_object
  convert_object-convert_config =
      let (v, p, q) = from_json_map-to_json_map c laws b registered named marshalled in
      let (out, r) = new_object_known b.type known in
      let k : IstioKind c.Value =
        set_spec
          (set_object_meta out (record {
            name = e.name;
            namespace = e.namespace;
            resource_version = e.resource_version;
            labels = e.labels;
            annotations = e.annotations;
          }))
          (some v) in
      (k, rw (p, r), refl, refl, refl, rw q)
