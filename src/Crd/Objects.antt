-- ===== src/Crd/Objects.antt =====
-- template.go: the generic Kubernetes object and its list, of which generate.sh makes one copy for
-- each known type; and the table of known types that generate.sh writes.
-- A pointer is an `Option`, with `none` for nil. Objects are values: nothing in the package changes
-- the contents of a spec map after it is set.
pub mod Copies
pub mod Sharing
use old_broker_repo.Prelude.{
  Text, codes, List, [], ◌∷◌, Option, none, some, Result, ok, panic, ◌>>=◌, ◌==◌, if◌then◌else◌,
}
use old_broker_repo.Config.Resource.{Labels}
use old_broker_repo.Config.BrokerStore.{istio_api_version}

-- `meta_v1.TypeMeta`.
pub record TypeMeta : Type 0 where
  pub kind : Text
  pub api_version : Text

-- `meta_v1.ObjectMeta`, the fields that the package reads or writes.
pub record ObjectMeta : Type 0 where
  pub name : Text
  pub namespace : Text
  pub resource_version : Text
  pub labels : Labels
  pub annotations : Labels

abbrev pub empty_meta : ObjectMeta
empty_meta = record {
  name = [];
  namespace = [];
  resource_version = [];
  labels = [];
  annotations = [];
}

-- `Value` is a decoded JSON map; a nil map is `none`.
pub record IstioKind (Value : Type 0) : Type 0 where
  pub type_meta : TypeMeta
  pub object_meta : ObjectMeta
  pub spec : Option Value

-- `items` is a slice of pointers; a nil slice is `none`. `ListMeta`, which is only copied, is left out.
pub record IstioKindList (Value : Type 0) : Type 0 where
  pub type_meta : TypeMeta
  pub items : Option (List (Option (IstioKind Value)))

module _ {Value : Type 0} where
  unfoldable pub get_spec : IstioKind Value → Option Value
  get_spec in' = in'.spec

  unfoldable pub set_spec : IstioKind Value → Option Value → IstioKind Value
  set_spec in' spec = record in' { spec = spec }

  unfoldable pub get_object_meta : IstioKind Value → ObjectMeta
  get_object_meta in' = in'.object_meta

  unfoldable pub set_object_meta : IstioKind Value → ObjectMeta → IstioKind Value
  set_object_meta in' metadata = record in' { object_meta = metadata }

  unfoldable pub get_items : IstioKindList Value → List (Option (IstioKind Value))
  get_items in' = elim in'.items [ none ↦ [] | some items ↦ items ]

  -- The object behind `out` afterwards; a nil pointer on either side is dereferenced.
  unfoldable pub deep_copy_into :
      Option (IstioKind Value) → Option (IstioKind Value) → Result (Option (IstioKind Value))
  deep_copy_into none out = panic
  deep_copy_into (some in') none = panic
  deep_copy_into (some in') (some out) =
      ok (
        some (record { type_meta = in'.type_meta; object_meta = in'.object_meta; spec = in'.spec }))

  abbrev zero : IstioKind Value
  zero = record {
    type_meta = record { kind = []; api_version = [] };
    object_meta = empty_meta;
    spec = none;
  }

  unfoldable pub deep_copy : Option (IstioKind Value) → Result (Option (IstioKind Value))
  unfolding deep_copy_into
  deep_copy none = ok none
  deep_copy (some in') = deep_copy_into (some in') (some zero)

  -- `make([]*IstioKind, len(*in))`: a nil pointer for each item.
  abbrev make_items : List (Option (IstioKind Value)) → List (Option (IstioKind Value))
  make_items [] = []
  make_items (item ∷ items) = none ∷ make_items items

  -- `for i := range *in { (*in)[i].DeepCopyInto((*out)[i]) }`
  unfoldable copy_items :
      List (Option (IstioKind Value))
      → List (Option (IstioKind Value))
      → Result (List (Option (IstioKind Value)))
  unfolding deep_copy_into
  copy_items [] out = ok out
  copy_items (item ∷ items) [] = panic
  copy_items (item ∷ items) (o ∷ out) = do
    o' ← deep_copy_into item o
    out' ← copy_items items out
    ok (o' ∷ out')

  -- `DeepCopyInto` of a list into a new one.
  unfoldable pub list_deep_copy_into : IstioKindList Value → Result (IstioKindList Value)
  unfolding copy_items
  list_deep_copy_into in' = elim in'.items [
    | none ↦ ok in'
    | some items ↦ do
      out ← copy_items items (make_items items)
      ok (record in' { items = some out })
  ]

  unfoldable pub list_deep_copy :
      Option (IstioKindList Value) → Result (Option (IstioKindList Value))
  unfolding list_deep_copy_into
  list_deep_copy none = ok none
  list_deep_copy (some in') = do out ← list_deep_copy_into in'; ok (some out)

-- An entry of `knownTypes`: pointers to a prototype object and to a prototype list.
pub record KnownType (Value : Type 0) : Type 0 where
  pub object : IstioKind Value
  pub collection : IstioKindList Value

module _ {Value : Type 0} where
  abbrev known_type : Text → KnownType Value
  known_type kind = record {
    object = record {
      type_meta = record { kind = kind; api_version = istio_api_version };
      object_meta = empty_meta;
      spec = none;
    };
    collection = record { type_meta = record { kind = []; api_version = [] }; items = none };
  }

  -- The table that generate.sh writes to types.go.
  unfoldable pub known_types : Text → Option (KnownType Value)
  known_types typ =
      if typ == codes "service-class"
      then some (known_type (codes "ServiceClass"))
      else if typ == codes "service-plan"
      then some (known_type (codes "ServicePlan"))
      else if typ == codes "fake-config"
      then some (known_type (codes "FakeConfig"))
      else none

  -- `knownTypes[typ].object.DeepCopyObject().(IstioObject)`
  unfoldable pub new_object : Text → Result (IstioKind Value)
  unfolding known_types deep_copy
  new_object typ = elim (known_types typ) [
    | none ↦ panic
    | some k ↦ do copy ← deep_copy (some k.object); elim copy [ none ↦ panic | some out ↦ ok out ]
  ]

  -- `knownTypes[typ].collection.DeepCopyObject().(IstioObjectList)`
  unfoldable pub new_collection : Text → Result (IstioKindList Value)
  unfolding known_types list_deep_copy
  new_collection typ = elim (known_types typ) [
    | none ↦ panic
    | some k ↦ do
      copy ← list_deep_copy (some k.collection)
      elim copy [ none ↦ panic | some out ↦ ok out ]
  ]
