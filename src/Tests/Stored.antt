-- ===== src/Tests/Stored.antt =====
-- What clients do at a server with room for one object.
use old_broker_repo.Prelude.{
  Text, codes, [], ◌∷◌, Option, none, some, ok, panic, ◌≡◌, ◌≢◌, ◌⊎◌, refl, arith, inl, inr, ◌==◌,
  ◌==?◌, ap, sym, ◌∙◌,
}
use mathlib.Core.Option.{some-injective}
use old_broker_repo.Config.Resource.{Entry}
use old_broker_repo.Config.Schema.{Schema, validate, to_json_map, from_json_map, run_additional}
use old_broker_repo.Config.Label.{is_dns1123_label}
use old_broker_repo.Config.Descriptor.{get_by_type}
use old_broker_repo.Config.BrokerStore.{service_class, service_plan, broker_config_types}
use old_broker_repo.Crd.Objects.{known_types, new_object, IstioKindList}
use old_broker_repo.Crd.Names.{resource_names}
use old_broker_repo.Crd.Conversion.{convert_config, convert_object}
use old_broker_repo.Crd.Client.{Client, plural_of, create, update, check_types}
use old_broker_repo.Crd.Client.Total.{AreKnown, check_types_iff}
use old_broker_repo.Crd.Cluster.{AreApart, IsTyped, Adds, creates, view, kept}
use old_broker_repo.Crd.Cluster.Refines.{Runs-Allows}
use old_broker_repo.Crd.Cluster.Conflicts.{update-excludes}
use old_broker_repo.Crd.Cluster.Clean.{IsCleanAt}
use old_broker_repo.Crd.Cluster.Reached.{Reach, start, step, calls, Reach-IsCleanAt}
use old_broker_repo.Tests.World.{
  TestMessage, class, junk, codec, codec_laws, test_meta, message_name,
}
use old_broker_repo.Tests.Api.{Room, vacant, server}
use old_broker_repo.Tests.Api.Laws.{laws}

abbrev pub client : Client Room TestMessage TestMessage
client = record { descriptor = broker_config_types TestMessage; dynamic = server }

pub known : AreKnown TestMessage client.descriptor
unfolding check_types known_types ◌==◌
known = (check_types_iff TestMessage client.descriptor).0 refl

two_types :
    (t : Text) (s : Schema TestMessage)
    → get_by_type client.descriptor t ≡ some s
    → ((codes "service-class" ≡ t) × (service_class TestMessage ≡ s))
      ⊎ ((codes "service-plan" ≡ t) × (service_plan TestMessage ≡ s))
unfolding get_by_type
two_types t s h = elim (codes "service-class" ==? t) [
  | inl (p, e) ↦ inl (p, ground arith)
  | inr (p, e) ↦ elim (codes "service-plan" ==? t) [
    | inl (q, e') ↦ inr (q, ground arith)
    | inr (q, e') ↦ ground arith
  ]
]

plurals_differ : plural_of (service_class TestMessage) ≢ plural_of (service_plan TestMessage)
unfolding resource_names
plurals_differ p = cc

pub apart : AreApart client.descriptor
apart t t' s s' p p' h = elim (two_types t s p) [
  | inl (a, b) ↦ elim (two_types t' s' p') [
    | inl (a', b') ↦ sym a ∙ a'
    | inr (a', b') ↦ absurd (plurals_differ (ap plural_of b ∙ h ∙ ap plural_of (sym b')))
  ]
  | inr (a, b) ↦ elim (two_types t' s' p') [
    | inl (a', b') ↦ absurd (plurals_differ (ap plural_of b' ∙ sym h ∙ ap plural_of (sym b)))
    | inr (a', b') ↦ sym a ∙ a'
  ]
]

pub checks :
    (t : Text) (s : Schema TestMessage) (m : TestMessage)
    → get_by_type client.descriptor t ≡ some s
    → run_additional codec s.additional_validate m ≢ panic
unfolding run_additional
checks t s m p = elim (two_types t s p) [
  | inl (a, b) ↦ rw (← b) (λ h. cc)
  | inr (a, b) ↦ rw (← b) (λ h. cc)
]

abbrev pub product : Entry TestMessage
product = record { meta = test_meta; spec = class (codes "page") }

-- At the revision that the server gives first.
abbrev pub edited : Text → Entry TestMessage
edited name = record { meta = record test_meta { resource_version = codes "8" }; spec = class name }

pub found : get_by_type client.descriptor (codes "service-class") ≡ some (service_class TestMessage)
unfolding get_by_type ◌==◌
found = refl

registered : (name : Text) → codec.message_type (message_name (class name)) ≡ some (class [])
unfolding ◌==◌
registered name = refl

pub class-IsTyped :
    (e : Entry TestMessage) (name : Text)
    → e.type ≡ codes "service-class"
    → e.spec ≡ class name
    → IsTyped codec message_name client.descriptor e
class-IsTyped e name p q s h =
    let h' = rw p at h in
    let same = some-injective (service_class TestMessage) s (sym found ∙ h') in
    rw (q, ← same) (refl, (class [], registered name), λ p. cc p)

abbrev pub stored : Room
stored = (create codec junk client product vacant).1

abbrev pub changed : Room
changed = (update codec junk client (edited (codes "cover")) stored).1

pub created : create codec junk client product vacant ≡ (ok (codes "8"), stored)
unfolding create get_by_type validate is_dns1123_label convert_config new_object known_types
    to_json_map ◌==◌
created = refl

pub updated :
    update codec junk client (edited (codes "cover")) stored ≡ (ok (0 ∷ codes "8"), changed)
unfolding update create get_by_type validate is_dns1123_label convert_config new_object known_types
    to_json_map ◌==◌ resource_names
updated = refl

pub reached : Reach codec junk message_name client laws stored
unfolding laws
reached = step (start (λ a b d. refl)) (
    calls (creates product (ok (codes "8"))) (class-IsTyped product (codes "page") refl refl)
      created)

Runs-Allows_example :
    Adds product
      (codes "8")
      (view codec junk client laws vacant)
      (view codec junk client laws stored)
Runs-Allows_example =
    Runs-Allows codec junk codec_laws client laws known apart checks
      (creates product (ok (codes "8"))) vacant stored
      (class-IsTyped product (codes "page") refl refl) created

Reach-IsCleanAt_example : IsCleanAt codec junk codec_laws client laws known apart checks stored
Reach-IsCleanAt_example =
    Reach-IsCleanAt codec junk codec_laws client laws known apart checks stored reached

seen :
    view codec junk client laws stored
      (codes "service-class")
      (codes "productpage")
      (codes "default")
    ≡ some (kept product (codes "8"))
unfolding view laws create get_by_type validate is_dns1123_label convert_config convert_object
    new_object known_types to_json_map from_json_map ◌==◌ resource_names
seen = refl

abbrev revision_shown : Option (Entry TestMessage) → Text
revision_shown none = []
revision_shown (some e) = e.resource_version

-- Two clients have read revision 8.
differs :
    view codec junk client laws stored
      (codes "service-class")
      (codes "productpage")
      (codes "default")
    ≢ some (kept (edited (codes "cover")) (0 ∷ codes "8"))
differs p = let q : codes "8" ≡ 0 ∷ codes "8" = ap revision_shown (sym seen ∙ p) in cc

update-excludes_example :
    ¬ (update codec junk client (edited (codes "title")) changed ≡ (ok (codes "9"), changed))
update-excludes_example =
    update-excludes codec junk codec_laws client laws known apart checks (edited (codes "cover"))
      (edited (codes "title")) (0 ∷ codes "8") (codes "9") stored changed changed
      (class-IsTyped (edited (codes "cover")) (codes "cover") refl refl)
      (class-IsTyped (edited (codes "title")) (codes "title") refl refl) ((refl, refl, refl), refl)
      differs updated

abbrev nothing_listed : IstioKindList TestMessage
nothing_listed = record { type_meta = record { kind = []; api_version = [] }; items = none }
