-- ===== src/Tests/Served.antt =====
-- A service class that a client has created, in the catalog.
use old_broker_repo.Prelude.{codes, [], ◌∷◌, none, some, ◌≡◌, refl, ap, sym, ◌∙◌, subst, ◌==◌}
use old_broker_repo.Prelude.Calls.{Ranging}
use old_broker_repo.Config.Descriptor.{get_by_type}
use old_broker_repo.Config.Schema.{validate, to_json_map}
use old_broker_repo.Config.Label.{is_dns1123_label}
use old_broker_repo.Config.BrokerStore.{service_class, service_plan}
use old_broker_repo.Crd.Client.{plural_of, create}
use old_broker_repo.Crd.Conversion.{convert_config}
use old_broker_repo.Crd.Objects.{known_types, new_object, IstioKindList}
use old_broker_repo.Crd.Names.{resource_names}
use old_broker_repo.Controller.Served.{Holds, IsAnswered}
use old_broker_repo.Tests.World.{class, codec, junk, perm_refl, TestMessage}
use old_broker_repo.Tests.Api.{Room, held, slot, listing, Object, server}
use old_broker_repo.Tests.Api.Laws.{laws}
use old_broker_repo.Tests.Api.Slots.{held_slot}
use old_broker_repo.Tests.Stored.{client, stored}

abbrev pub ranging : Ranging Room
ranging = record { visit = λ m w. (m, w); visit_perm = λ m w. perm_refl m }

-- The object of the entry.
abbrev pub object : Object
object = record {
  type_meta = record { kind = codes "ServiceClass"; api_version = codes "v1alpha2" };
  object_meta = record {
    name = codes "productpage";
    namespace = codes "default";
    resource_version = codes "8";
    labels = [];
    annotations = [];
  };
  spec = some (class (codes "page"));
}

stored_slot : stored ≡ slot (codes "default") (codes "serviceclasses") (codes "productpage") object
unfolding create get_by_type validate is_dns1123_label convert_config new_object known_types
    to_json_map ◌==◌ resource_names
stored_slot = refl

abbrev kept_slot : Room
kept_slot = slot (codes "default") (codes "serviceclasses") (codes "productpage") object

held_kept :
    held stored (codes "default") (codes "serviceclasses") (codes "productpage") ≡ some object
unfolding ◌==◌
held_kept =
    ap (λ v. held v (codes "default") (codes "serviceclasses") (codes "productpage")) stored_slot

-- No other world holds the same objects.
stored_only : (w : Room) → Holds codec junk client laws stored w → w ≡ kept_slot
unfolding laws ◌==◌
stored_only w h =
    held_slot w (codes "default") (codes "serviceclasses") (codes "productpage") object
      (h (codes "default") (codes "serviceclasses") (codes "productpage") ∙ held_kept)

pub class_listed :
    IsAnswered codec junk client laws stored
      (service_class TestMessage)
      (listing (some object ∷ []))
unfolding laws resource_names ◌==◌
class_listed w h =
    let same = stored_only w h in
    subst
      (λ v.
        (w' : Room) × ((items : IstioKindList TestMessage)
          → server.list_into [] (plural_of (service_class TestMessage)) items v
            ≡ ((none, listing (some object ∷ [])), w')))
      (sym same) (kept_slot, λ items. refl)

pub plan_listed : IsAnswered codec junk client laws stored (service_plan TestMessage) (listing [])
unfolding laws resource_names ◌==◌
plan_listed w h =
    let same = stored_only w h in
    subst
      (λ v.
        (w' : Room) × ((items : IstioKindList TestMessage)
          → server.list_into [] (plural_of (service_plan TestMessage)) items v
            ≡ ((none, listing []), w')))
      (sym same) (kept_slot, λ items. refl)

pub plan_found :
    get_by_type client.descriptor (codes "service-plan") ≡ some (service_plan TestMessage)
unfolding get_by_type ◌==◌
plan_found = refl
