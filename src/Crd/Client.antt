-- ===== src/Crd/Client.antt =====
-- client.go: the operations of the store over the REST client of Kubernetes.
pub mod Guards
pub mod Listing
pub mod Total
pub mod Safe
pub mod Hiding
pub mod Sends
use old_broker_repo.Prelude.{
  Text, codes, List, [], ◌∷◌, ◌++◌, Option, none, some, Error, Result, ok, err, panic, errorf,
  prefixed, append, map_err, Act, ◌==◌, if◌then◌else◌,
}
use old_broker_repo.Prelude.Calls.{pure, fail, of_result, run, ◌>>=◌, ◌>>◌}
use old_broker_repo.Config.Resource.{Entry}
use old_broker_repo.Config.Codec.{Codec}
use old_broker_repo.Config.Schema.{Schema, validate}
use old_broker_repo.Config.Descriptor.{Descriptor, get_by_type}
use old_broker_repo.Config.Store.{Store}
use old_broker_repo.Crd.Names.{resource_names}
use old_broker_repo.Crd.Objects.{
  IstioKind, IstioKindList, get_object_meta, get_items, known_types, new_object, new_collection,
}
use old_broker_repo.Crd.Conversion.{convert_object, convert_config}

-- `rest.RESTClient`: a request for a namespace, a resource and a name. `Into` decodes the answer into
-- the object that it is given, whether or not it returns an error.
pub record RestClient (W Value : Type 0) : Type 0 where
  pub get_into : Text → Text → Text → IstioKind Value → W → (Option Error × IstioKind Value) × W
  pub list_into : Text → Text → IstioKindList Value → W → (Option Error × IstioKindList Value) × W
  pub post_into :
      Text → Text → IstioKind Value → IstioKind Value → W → (Option Error × IstioKind Value) × W
  pub put_into :
      Text
      → Text
      → Text
      → IstioKind Value
      → IstioKind Value
      → W
      → (Option Error × IstioKind Value) × W
  pub delete : Text → Text → Text → W → Option Error × W

-- The REST configuration is only handed to other clients and is left out.
pub record Client (W Message Value : Type 0) : Type 0 where
  pub descriptor : Descriptor Message
  pub dynamic : RestClient W Value

-- The third of the resource names.
abbrev pub plural_of : {Message : Type 0} → Schema Message → Text
plural_of schema = (resource_names schema).2

-- `schema, exists := cl.descriptor.GetByType(typ)`, with the error for a type that is not there.
abbrev pub schema_of :
    {Message : Type 0} → Descriptor Message → Text → Text → Result (Schema Message)
schema_of descriptor format typ = elim (get_by_type descriptor typ) [
  | none ↦ err (errorf format (typ ∷ []))
  | some schema ↦ ok schema
]

abbrev pub no_error : Option Error → Result (Unit {0})
no_error none = ok tt
no_error (some e) = err e

abbrev revision_given : {Message : Type 0} → Entry Message → Result (Unit {0})
revision_given entry =
    if entry.resource_version == [] then err (errorf (codes "revision is required") []) else ok tt

module _ {Message : Type 0} (c : Codec Message) (nil_map : c.Value) where
  -- `nil, false` for an error; a panic goes on.
  abbrev found_or_not : Result (Entry Message) → Result (Option (Entry Message))
  found_or_not (ok out) = ok (some out)
  found_or_not (err e) = ok none
  found_or_not panic = panic

  abbrev pub got :
      Schema Message → Option Error × IstioKind c.Value → Result (Option (Entry Message))
  got schema (some e, entry) = ok none
  got schema (none, entry) = found_or_not (convert_object c nil_map schema (some entry))

  -- The revision of the object that the server answered with.
  abbrev pub revision_of : Option Error × IstioKind c.Value → Result Text
  revision_of (some e, obj) = err e
  revision_of (none, obj) = ok obj.object_meta.resource_version

  abbrev pub validated : Schema Message → Entry Message → Result (Unit {0})
  validated schema entry =
      map_err (λ e. prefixed e (codes "validation error:")) (validate c schema entry.spec)

  -- The loop over the items, with what it has put together so far.
  unfoldable pub convert_items :
      Schema Message
      → List (Option (IstioKind c.Value))
      → List (Entry Message)
      → Option Error
      → Result (List (Entry Message) × Option Error)
  convert_items schema [] out errs = ok (out, errs)
  convert_items schema (item ∷ items) out errs = elim (convert_object c nil_map schema item) [
    | ok obj ↦ convert_items schema items (out ++ obj ∷ []) errs
    | err e ↦ convert_items schema items out (some (append errs (some e)))
    | panic ↦ panic
  ]

module _ {W Message : Type 0} (c : Codec Message) (nil_map : c.Value) where
  unfoldable pub get :
      Client W Message c.Value → Text → Text → Text → Act W (Option (Entry Message))
  get cl typ name namespace = elim (get_by_type cl.descriptor typ) [
    | none ↦ pure none
    | some schema ↦ do
      entry ← of_result (new_object typ)
      answer ← run (cl.dynamic.get_into namespace (plural_of schema) name entry)
      of_result (got c nil_map schema answer)
  ]

  unfoldable pub create : Client W Message c.Value → Entry Message → Act W Text
  create cl entry = do
    schema ← of_result (schema_of cl.descriptor (codes "unrecognized type %q") entry.type)
    of_result (validated c nil_map schema entry)
    out ← of_result (convert_config c nil_map schema entry)
    obj ← of_result (new_object schema.type)
    answer ← run (cl.dynamic.post_into out.object_meta.namespace (plural_of schema) out obj)
    of_result (revision_of c nil_map answer)

  unfoldable pub update : Client W Message c.Value → Entry Message → Act W Text
  update cl entry = do
    schema ← of_result (schema_of cl.descriptor (codes "unrecognized type %q") entry.type)
    of_result (validated c nil_map schema entry)
    of_result (revision_given entry)
    out ← of_result (convert_config c nil_map schema entry)
    obj ← of_result (new_object schema.type)
    answer ← run (
        cl.dynamic.put_into out.object_meta.namespace (plural_of schema) out.object_meta.name out
          obj)
    of_result (revision_of c nil_map answer)

  unfoldable pub delete : Client W Message c.Value → Text → Text → Text → Act W (Unit {0})
  delete cl typ name namespace = do
    schema ← of_result (schema_of cl.descriptor (codes "missing type %q") typ)
    answer ← run (cl.dynamic.delete namespace (plural_of schema) name)
    of_result (no_error answer)

  unfoldable pub list :
      Client W Message c.Value → Text → Text → Act W (List (Entry Message) × Option Error)
  list cl typ namespace = elim (get_by_type cl.descriptor typ) [
    | none ↦ pure ([], some (errorf (codes "missing type %q") (typ ∷ [])))
    | some schema ↦ do
      items ← of_result (new_collection schema.type)
      answer ← run (cl.dynamic.list_into namespace (plural_of schema) items)
      of_result (convert_items c nil_map schema (get_items answer.1) [] answer.0)
  ]

  -- The client as a `config.Store`.
  unfoldable pub as_store : Client W Message c.Value → Store W Message
  as_store cl = record {
    descriptor = cl.descriptor;
    get = get cl;
    list = list cl;
    create = create cl;
    update = update cl;
    delete = delete cl;
  }

-- The first test of `NewClient`: every type of the descriptor is known.
unfoldable pub check_types :
    {Message : Type 0} → (Value : Type 0) → Descriptor Message → Result (Unit {0})
check_types Value [] = ok tt
check_types Value (typ ∷ descriptor) = elim (known_types {Value = Value} typ.type) [
  | none ↦ err (errorf (codes "missing known type for %q") (typ.type ∷ []))
  | some _ ↦ check_types Value descriptor
]
