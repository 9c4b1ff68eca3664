-- ===== src/Crd/Cluster/Typed.antt =====
-- What is shown is an entry of its key, with a message of its schema's type.
use old_broker_repo.Prelude.{Text, some, ◌≡◌}
use old_broker_repo.Config.Resource.{Entry}
use old_broker_repo.Config.Codec.{Codec}
use old_broker_repo.Config.Schema.{Schema}
use old_broker_repo.Config.Schema.Validation.{IsAcceptable}
use old_broker_repo.Config.Descriptor.{get_by_type}
use old_broker_repo.Crd.Client.{Client}

-- The entry is one of the key and of the schema of its type.
pub record IsWellTyped {W Message : Type 0} (c : Codec Message) (message_name : Message → Text)
    (cl : Client W Message c.Value) (t n ns : Text) (e : Entry Message) : Type 0 where
  pub schema : Schema Message
  pub found : get_by_type cl.descriptor t ≡ some schema
  pub type : e.type ≡ t
  pub name : e.name ≡ n
  pub namespace : e.namespace ≡ ns
  pub message : message_name e.spec ≡ schema.message_name
  pub acceptable : IsAcceptable c schema e.spec
