-- ===== src/Controller/Served.antt =====
-- What clients have stored is what the catalog offers.
use old_broker_repo.Prelude.{Text, List, [], none, some, ◌≡◌, ◌↔◌, Memᴰ}
use old_broker_repo.Prelude.Dict.{Dict}
use old_broker_repo.Config.Resource.{Entry}
use old_broker_repo.Config.Codec.{Codec}
use old_broker_repo.Config.Schema.{Schema}
use old_broker_repo.Crd.Objects.{IstioKindList}
use old_broker_repo.Crd.Client.{Client, plural_of}
use old_broker_repo.Crd.Api.{Same, ApiLaws}
use old_broker_repo.Crd.Cluster.{view}

module _ {W Message : Type 0} (c : Codec Message) (nil_map : c.Value)
    (cl : Client W Message c.Value) (server : ApiLaws cl.dynamic) (w₀ : W) where
  -- The world holds the same objects.
  abbrev pub Holds : W → Type 0
  Holds w = Same (server.stored w₀) (server.stored w)

  -- While these objects are held, the server answers the listing of all objects of the schema so.
  abbrev pub IsAnswered : Schema Message → IstioKindList c.Value → Type 0
  IsAnswered s l =
      (w : W)
      → Holds w
      → (w' : W) × ((items : IstioKindList c.Value)
          → cl.dynamic.list_into [] (plural_of s) items w ≡ ((none, l), w'))

  -- The entries of a type that the client shows.
  abbrev pub AreShown : Text → List (Entry Message) → Type 0
  AreShown t es =
      (e : Entry Message) → Memᴰ e es ↔ (view c nil_map cl server w₀ t e.name e.namespace ≡ some e)
