-- ===== src/Crd/Cluster/Available.antt =====
-- Where the server answers every request that it can carry out, requests succeed where they are to.
use old_broker_repo.Prelude.{Text, [], Option, none, some, panic, ◌≡◌, ◌≢◌}
use old_broker_repo.Config.Resource.{Entry}
use old_broker_repo.Config.Codec.{Codec, CodecLaws}
use old_broker_repo.Config.Schema.{Schema, run_additional}
use old_broker_repo.Config.Descriptor.{get_by_type}
use old_broker_repo.Crd.Objects.{IstioKind}
use old_broker_repo.Crd.Client.{Client, RestClient, plural_of, delete}
use old_broker_repo.Crd.Client.Sends.{IsReady}
use old_broker_repo.Crd.Client.Total.{AreKnown}
use old_broker_repo.Crd.Api.{ApiLaws}
use old_broker_repo.Crd.Cluster.{AreApart, IsTyped, view}
use old_broker_repo.Crd.Cluster.Reached.{Reach}

-- The server answers a request with an error only for a reason: it does not admit the object, the name
-- is taken, the object to create has a revision, or there is no object of the name and the revision.
pub record IsAvailable {W Value : Type 0} {api : RestClient W Value} (server : ApiLaws api)
    : Type 1 where
  -- The objects whose namespaces, names, labels and annotations the server accepts.
  pub admits : IstioKind Value → Type 0
  pub posts :
      (namespace resource : Text) (body obj : IstioKind Value) (w : W)
      → admits body
      → body.object_meta.resource_version ≡ []
      → server.stored w namespace resource body.object_meta.name ≡ none
      → (api.post_into namespace resource body obj w).0.0 ≡ none
  pub puts :
      (namespace resource name : Text) (body obj old : IstioKind Value) (w : W)
      → admits body
      → server.stored w namespace resource name ≡ some old
      → old.object_meta.resource_version ≡ body.object_meta.resource_version
      → (api.put_into namespace resource name body obj w).0.0 ≡ none
  pub gets :
      (namespace resource name : Text) (obj k : IstioKind Value) (w : W)
      → server.stored w namespace resource name ≡ some k
      → (api.get_into namespace resource name obj w).0.0 ≡ none
  pub deletes :
      (namespace resource name : Text) (k : IstioKind Value) (w : W)
      → server.stored w namespace resource name ≡ some k
      → (api.delete namespace resource name w).0 ≡ none
  pub deletes_missing :
      (namespace resource name : Text) (w : W)
      → server.stored w namespace resource name ≡ none
      → (api.delete namespace resource name w).0 ≢ none

module _ {W Message : Type 0} (c : Codec Message) (nil_map : c.Value)
    {message_name : Message → Text} (laws : CodecLaws c message_name)
    (cl : Client W Message c.Value) (server : ApiLaws cl.dynamic) (available : IsAvailable server)
    (known : AreKnown c.Value cl.descriptor) (apart : AreApart cl.descriptor)
    (checks : (typ : Text) (s : Schema Message) (m : Message)
      → get_by_type cl.descriptor typ ≡ some s
      → run_additional c s.additional_validate m ≢ panic)
    (e : Entry Message) (typed : IsTyped c message_name cl.descriptor e) {s : Schema Message}
    {out obj : IstioKind c.Value} (ready : IsReady c nil_map cl e s out obj) (w : W)
    (reach : Reach c nil_map message_name cl server w) where
  abbrev pub seen : Option (Entry Message)
  seen = view c nil_map cl server w e.type e.name e.namespace

  abbrev held : Option (IstioKind c.Value)
  held = server.stored w e.namespace (plural_of s) e.name
