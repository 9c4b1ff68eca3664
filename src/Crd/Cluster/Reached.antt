-- ===== src/Crd/Cluster/Reached.antt =====
-- The clusters that a client reaches from one with no objects.
use old_broker_repo.Prelude.{Text, some, none, panic, ◌≡◌, ◌≢◌, subst, sym, ◌∙◌}
use old_broker_repo.Config.Codec.{Codec, CodecLaws}
use old_broker_repo.Config.Schema.{Schema, run_additional}
use old_broker_repo.Config.Descriptor.{get_by_type}
use old_broker_repo.Crd.Client.{Client, list}
use old_broker_repo.Crd.Client.Total.{AreKnown}
use old_broker_repo.Crd.Api.{ApiLaws}
use old_broker_repo.Crd.Cluster.{Call, creates, updates, deletes, gets, AreApart, IsTypedCall, Runs}
use old_broker_repo.Crd.Cluster.Clean.{
  IsCleanAt, Same-IsClean, create-IsCleanAt, update-IsCleanAt, delete-IsCleanAt,
}
use old_broker_repo.Crd.Cluster.Reads.{get-Same, list-Same}

module _ {W Message : Type 0} (c : Codec Message) (nil_map : c.Value)
    (message_name : Message → Text) (cl : Client W Message c.Value)
    (server : ApiLaws cl.dynamic) where
  -- One operation of the client.
  pub data Step (w : W) : W → Type 0 where
    calls :
        {w' : W} (call : Call Message)
        → IsTypedCall c message_name cl.descriptor call
        → Runs c nil_map cl server w call w'
        → Step w w'
    lists : (typ namespace : Text) → Step w (list c nil_map cl typ namespace w).1

  pub data Reach : W → Type 0 where
    start :
        {w : W}
        → ((namespace resource name : Text) → server.stored w namespace resource name ≡ none)
        → Reach w
    step : {w w' : W} → Reach w → Step w w' → Reach w'

module _ {W Message : Type 0} (c : Codec Message) (nil_map : c.Value)
    {message_name : Message → Text} (laws : CodecLaws c message_name)
    (cl : Client W Message c.Value) (server : ApiLaws cl.dynamic)
    (known : AreKnown c.Value cl.descriptor) (apart : AreApart cl.descriptor)
    (checks : (typ : Text) (s : Schema Message) (m : Message)
      → get_by_type cl.descriptor typ ≡ some s
      → run_additional c s.additional_validate m ≢ panic) where
  abbrev IsCleanHere : W → Type 0
  IsCleanHere w = IsCleanAt c nil_map laws cl server known apart checks w

  call-IsCleanAt :
      (call : Call Message) (w w' : W)
      → IsTypedCall c message_name cl.descriptor call
      → Runs c nil_map cl server w call w'
      → IsCleanHere w
      → IsCleanHere w'
  call-IsCleanAt (creates e r) w w' typed h k =
      subst (λ x. IsCleanHere x.1) h
        (create-IsCleanAt c nil_map laws cl server known apart checks e w typed k)
  call-IsCleanAt (updates e r) w w' typed h k =
      subst (λ x. IsCleanHere x.1) h
        (update-IsCleanAt c nil_map laws cl server known apart checks e w typed k)
  call-IsCleanAt (deletes t n ns r) w w' typed h k =
      subst (λ x. IsCleanHere x.1) h
        (delete-IsCleanAt c nil_map laws cl server known apart checks t n ns w k)
  call-IsCleanAt (gets t n ns r) w w' typed h k =
      subst (λ x. IsCleanHere x.1) h
        (Same-IsClean c nil_map message_name cl _ _ (get-Same c nil_map cl server known t n ns w) k)

  Step-IsCleanAt :
      (w w' : W) → Step c nil_map message_name cl server w w' → IsCleanHere w → IsCleanHere w'
  Step-IsCleanAt w w' (calls call typed h) k = call-IsCleanAt call w w' typed h k
  Step-IsCleanAt w w' (lists t ns) k =
      Same-IsClean c nil_map message_name cl _ _ (list-Same c nil_map cl server known t ns w) k

  -- At a client whose types are all known and have resources of their own, whose schemas' own
  -- checks do not panic, where encodings can be undone and the server keeps the laws of its API,
  -- every cluster that is reached from one with no objects by creations, updates, deletions,
  -- readings and listings, with messages of the schemas' registered types at which jsonpb does not
  -- panic, holds no object of a type of the descriptor that cannot be read as an entry of its name
  -- and namespace with a message of the type that its schema names and that the schema accepts.
  pub Reach-IsCleanAt :
      (w : W)
      → Reach c nil_map message_name cl server w
      → IsCleanAt c nil_map laws cl server known apart checks w
  Reach-IsCleanAt w (start none_stored) = λ t n ns s k found p. cc (sym (none_stored ns _ n) ∙ p)
  Reach-IsCleanAt w' (step {w} r s) = Step-IsCleanAt w w' s (Reach-IsCleanAt w r)
