-- ===== src/Mock/Checks/Broker/Accepts.antt =====
-- The check of the broker's configuration, run on the client of client.go.
use old_broker_repo.Prelude.{Text, true, some, panic, ◌≡◌, ◌≢◌}
use old_broker_repo.Config.Resource.{Entry}
use old_broker_repo.Config.Codec.{Codec, CodecLaws}
use old_broker_repo.Config.Schema.{Schema, run_additional}
use old_broker_repo.Config.Descriptor.{get_by_type}
use old_broker_repo.Config.Store.{Store}
use old_broker_repo.Crd.Objects.{IstioKind}
use old_broker_repo.Crd.Client.{Client}
use old_broker_repo.Crd.Client.Sends.{IsReady}
use old_broker_repo.Crd.Client.Total.{AreKnown}
use old_broker_repo.Crd.Api.{ApiLaws}
use old_broker_repo.Crd.Cluster.{View, AreApart, IsTyped, view}
use old_broker_repo.Crd.Cluster.Available.{IsAvailable}
use old_broker_repo.Mock.{Fakes}

module _ {W Message : Type 0} (fakes : Fakes Message) (c : Codec Message) (nil_map : c.Value)
    {message_name : Message → Text} (laws : CodecLaws c message_name)
    (cl : Client W Message c.Value) (server : ApiLaws cl.dynamic) (available : IsAvailable server)
    (known : AreKnown c.Value cl.descriptor) (apart : AreApart cl.descriptor)
    (checks : (typ : Text) (s : Schema Message) (m : Message)
      → get_by_type cl.descriptor typ ≡ some s
      → run_additional c s.additional_validate m ≢ panic)
    (same : (m : Message) → fakes.deep_equal_spec m m ≡ true) where
  abbrev views : W → View Message
  views w = view c nil_map cl server w

  -- The server admits the object that is sent for the entry.
  pub record IsAdmitted (e : Entry Message) : Type 0 where
    pub typed : IsTyped c message_name cl.descriptor e
    pub schema : Schema Message
    pub out : IstioKind c.Value
    pub obj : IstioKind c.Value
    pub ready : IsReady c nil_map cl e schema out obj
    pub admitted : available.admits out
