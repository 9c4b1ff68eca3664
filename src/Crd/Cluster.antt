-- ===== src/Crd/Cluster.antt =====
-- What a client shows of a cluster: a map of entries by type, name and namespace, which is what the
-- interface Store of pkg/model/config/store.go promises; and what the interface says of each call.
pub mod Sent
pub mod Views
pub mod Calls
pub mod Reads
pub mod Refines
pub mod Conflicts
pub mod Clean
pub mod Reached
pub mod Listed
pub mod Existing
pub mod Available
pub mod Typed
use old_broker_repo.Prelude.{
  Text, [], Option, none, some, Error, Result, ok, err, panic, ◌≡◌, ◌≢◌, ◌⊎◌, ◌&&◌, ◌==◌,
  if◌then◌else◌,
}
use old_broker_repo.Config.Resource.{Entry}
use old_broker_repo.Config.Codec.{Codec}
use old_broker_repo.Config.Schema.{Schema}
use old_broker_repo.Config.Descriptor.{Descriptor, get_by_type}
use old_broker_repo.Crd.Objects.{IstioKind}
use old_broker_repo.Crd.Conversion.{convert_object}
use old_broker_repo.Crd.Client.{Client, plural_of, create, update, delete, get}
use old_broker_repo.Crd.Api.{ApiLaws}

-- Entries by type, name and namespace.
abbrev pub View : Type 0 → Type 0
View Message = Text → Text → Text → Option (Entry Message)

-- A call of the interface, with what it returned.
pub data Call (Message : Type 0) : Type 0 where
  creates updates : Entry Message → Result Text → Call Message
  deletes : Text → Text → Text → Result (Unit {0}) → Call Message
  gets : Text → Text → Text → Result (Option (Entry Message)) → Call Message

module _ {Message : Type 0} where
  abbrev pub SameView : View Message → View Message → Type 0
  SameView u v = (typ name namespace : Text) → v typ name namespace ≡ u typ name namespace

  abbrev pub SetsView :
      Text → Text → Text → Option (Entry Message) → View Message → View Message → Type 0
  SetsView typ name namespace x u v =
      (t n ns : Text)
      → v t n ns ≡ (if typ == t && (name == n && namespace == ns) then x else u t n ns)

  -- The entry as it is kept: at the revision, and without its Istio namespace.
  abbrev pub kept : Entry Message → Text → Entry Message
  kept e revision = record e {
    meta = record (e.meta) { istio_namespace = []; resource_version = revision };
  }

  -- A key that is not there is set.
  abbrev pub Adds : Entry Message → Text → View Message → View Message → Type 0
  Adds e revision u v =
      (u e.type e.name e.namespace ≡ none)
      × SetsView e.type e.name e.namespace (some (kept e revision)) u v

  -- A key is set, at a new revision unless it stays as it is; what it showed had the revision of the
  -- entry.
  pub record Replaces (e : Entry Message) (revision : Text) (u v : View Message) : Type 0 where
    pub sets : SetsView e.type e.name e.namespace (some (kept e revision)) u v
    pub current :
        (x : Entry Message)
        → u e.type e.name e.namespace ≡ some x
        → x.resource_version ≡ e.resource_version
    pub fresh :
        (revision ≢ e.resource_version) ⊎ (u e.type e.name e.namespace ≡ some (kept e revision))

  -- What the interface allows: the views before and after a call. A call that fails has changed nothing
  -- or, after an intermittent error, what it was to change; a reading may miss what is there.
  abbrev pub Allows : View Message → View Message → Call Message → Type 0
  Allows u v (creates e (ok revision)) = Adds e revision u v
  Allows u v (creates e (err x)) = SameView u v ⊎ ((revision : Text) × Adds e revision u v)
  Allows u v (creates e panic) = ⊥
  Allows u v (updates e (ok revision)) = Replaces e revision u v
  Allows u v (updates e (err x)) = SameView u v ⊎ ((revision : Text) × Replaces e revision u v)
  Allows u v (updates e panic) = ⊥
  Allows u v (deletes t n ns (ok _)) = SetsView t n ns none u v
  Allows u v (deletes t n ns (err x)) = SameView u v ⊎ SetsView t n ns none u v
  Allows u v (deletes t n ns panic) = ⊥
  Allows u v (gets t n ns r) = SameView u v × ((r ≡ ok none) ⊎ (r ≡ ok (u t n ns)))

  -- Types have resources of their own.
  abbrev pub AreApart : Descriptor Message → Type 0
  AreApart d =
      (t t' : Text) (s s' : Schema Message)
      → get_by_type d t ≡ some s
      → get_by_type d t' ≡ some s'
      → plural_of s ≡ plural_of s'
      → t ≡ t'

module _ {Message : Type 0} (c : Codec Message) (message_name : Message → Text)
    (d : Descriptor Message) where
  -- The message of an entry is of the type that the entry's schema names, the type is registered, and
  -- jsonpb does not panic at the message.
  abbrev pub IsTyped : Entry Message → Type 0
  IsTyped e =
      (s : Schema Message)
      → get_by_type d e.type ≡ some s
      → (s.message_name ≡ message_name e.spec)
        × ((empty : Message) × (c.message_type (message_name e.spec) ≡ some empty))
        × (c.marshal_to_string e.spec ≢ panic)

  abbrev pub IsTypedCall : Call Message → Type 0
  IsTypedCall (creates e r) = IsTyped e
  IsTypedCall (updates e r) = IsTyped e
  IsTypedCall (deletes t n ns r) = Unit
  IsTypedCall (gets t n ns r) = Unit

module _ {Message : Type 0} (c : Codec Message) (nil_map : c.Value) where
  abbrev pub readable : Result (Entry Message) → Option (Entry Message)
  readable (ok e) = some e
  readable (err x) = none
  readable panic = none

  -- What an object of the resource of `s` shows.
  abbrev pub shown : Schema Message → Option (IstioKind c.Value) → Option (Entry Message)
  shown s none = none
  shown s (some k) = readable (convert_object c nil_map s (some k))

module _ {W Message : Type 0} (c : Codec Message) (nil_map : c.Value)
    (cl : Client W Message c.Value) (server : ApiLaws cl.dynamic) where
  unfoldable pub view : W → View Message
  view w typ name namespace = elim (get_by_type cl.descriptor typ) [
    | none ↦ none
    | some s ↦ shown c nil_map s (server.stored w namespace (plural_of s) name)
  ]

  -- The client makes the call and returns so.
  abbrev pub Runs : W → Call Message → W → Type 0
  Runs w (creates e r) w' = create c nil_map cl e w ≡ (r, w')
  Runs w (updates e r) w' = update c nil_map cl e w ≡ (r, w')
  Runs w (deletes t n ns r) w' = delete c nil_map cl t n ns w ≡ (r, w')
  Runs w (gets t n ns r) w' = get c nil_map cl t n ns w ≡ (r, w')
