-- ===== src/Crd/Cluster/Refines.antt =====
-- Every call of the client is one that the interface of a store allows.
use old_broker_repo.Prelude.{Text, some, panic, ◌≡◌, ◌≢◌, subst}
use old_broker_repo.Config.Codec.{Codec, CodecLaws}
use old_broker_repo.Config.Schema.{Schema, run_additional}
use old_broker_repo.Config.Descriptor.{get_by_type}
use old_broker_repo.Crd.Client.{Client}
use old_broker_repo.Crd.Client.Total.{AreKnown}
use old_broker_repo.Crd.Api.{ApiLaws}
use old_broker_repo.Crd.Cluster.{
  Call, creates, updates, deletes, gets, Allows, AreApart, IsTypedCall, view, Runs,
}
use old_broker_repo.Crd.Cluster.Calls.{create-Allows, update-Allows, delete-Allows}
use old_broker_repo.Crd.Cluster.Reads.{get-view, get-SameView}

module _ {W Message : Type 0} (c : Codec Message) (nil_map : c.Value)
    {message_name : Message → Text} (laws : CodecLaws c message_name)
    (cl : Client W Message c.Value) (server : ApiLaws cl.dynamic)
    (known : AreKnown c.Value cl.descriptor) (apart : AreApart cl.descriptor)
    (checks : (typ : Text) (s : Schema Message) (m : Message)
      → get_by_type cl.descriptor typ ≡ some s
      → run_additional c s.additional_validate m ≢ panic) where
  -- At a client whose types are all known and have resources of their own, whose schemas' own
  -- checks do not panic, where encodings can be undone and the server keeps the laws of its API,
  -- the client is a map of entries by type, name and namespace: what it shows before and after a
  -- call with a message of the schema's registered type at which jsonpb does not panic is related
  -- as the store interface says. A creation that returns a revision adds the entry at that revision
  -- where nothing was shown; an update that returns one replaces the entry where its revision was
  -- the current one, at a new revision unless nothing changes; a deletion removes the key; reading
  -- returns what is shown or, as after an intermittent error, nothing. A call that returns an error
  -- has changed nothing or what it was to change, and no call panics.
  pub Runs-Allows :
      (call : Call Message) (w w' : W)
      → IsTypedCall c message_name cl.descriptor call
      → Runs c nil_map cl server w call w'
      → Allows (view c nil_map cl server w) (view c nil_map cl server w') call
  Runs-Allows (creates e r) w w' typed h =
      subst
        (λ x. Allows (view c nil_map cl server w) (view c nil_map cl server x.1) (creates e x.0)) h
        (create-Allows c nil_map laws cl server known apart checks e w typed)
  Runs-Allows (updates e r) w w' typed h =
      subst
        (λ x. Allows (view c nil_map cl server w) (view c nil_map cl server x.1) (updates e x.0)) h
        (update-Allows c nil_map laws cl server known apart checks e w typed)
  Runs-Allows (deletes t n ns r) w w' typed h =
      subst
        (λ x.
          Allows (view c nil_map cl server w) (view c nil_map cl server x.1) (deletes t n ns x.0))
        h (delete-Allows c nil_map laws cl server known apart checks t n ns w)
  Runs-Allows (gets t n ns r) w w' typed h =
      subst
        (λ x. Allows (view c nil_map cl server w) (view c nil_map cl server x.1) (gets t n ns x.0))
        h
        (
          get-SameView c nil_map cl server known t n ns w,
          get-view c nil_map cl server known t n ns w,
        )
