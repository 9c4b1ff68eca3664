-- ===== src/Tests/Config.antt =====
-- The configuration package at concrete inputs.
use old_broker_repo.Prelude.{
  ℕ, suc, Text, codes, List, [], ◌∷◌, none, some, ok, err, inr, ◌≡◌, refl, true, ◌==◌, foreign,
  if◌then◌else◌,
}
use old_broker_repo.Prelude.Dict.{Dict, lookup, insert}
use old_broker_repo.Config.Resource.{Entry}
use old_broker_repo.Config.Label.{is_dns1123_label}
use old_broker_repo.Config.Label.Correct.{IsLabel, is_dns1123_label_iff}
use old_broker_repo.Config.Schema.{Schema, validate, from_json_map}
use old_broker_repo.Config.Schema.Validation.{IsAcceptable, validate_iff}
use old_broker_repo.Config.Descriptor.{get_by_type, from_json, from_yaml, to_yaml}
use old_broker_repo.Config.Descriptor.Round.{from_yaml-to_yaml}
use old_broker_repo.Config.Store.{Store, entry_key}
use old_broker_repo.Config.BrokerStore.{
  service_class, service_plan, broker_config_types, service_classes, service_plans_by_service,
  collect,
}
use old_broker_repo.Config.BrokerStore.Views.{IsView, IsOffer, service_plans_by_service-IsOffer}
use old_broker_repo.Tests.World.{
  TestMessage, class, plan, msgs, codec, codec_laws, ranging, test_meta, message_name, cast_plan,
}

label_of_plan : is_dns1123_label (codes "service-plan") ≡ true
unfolding is_dns1123_label
label_of_plan = refl

abbrev descriptor : List (Schema TestMessage)
descriptor = broker_config_types TestMessage

abbrev class_schema : Schema TestMessage
class_schema = service_class TestMessage

abbrev product : Entry TestMessage
product = record { meta = test_meta; spec = class (codes "page") }

found : get_by_type descriptor (codes "service-class") ≡ some class_schema
unfolding get_by_type ◌==◌
found = refl

accepted : validate codec class_schema (class (codes "page")) ≡ ok tt
unfolding validate is_dns1123_label ◌==◌
accepted = refl

registered : codec.message_type (message_name (class (codes "page"))) ≡ some (class [])
unfolding ◌==◌
registered = refl

is_dns1123_label_iff_example :
    (is_dns1123_label (codes "a-b") ≡ true → IsLabel (codes "a-b"))
    × (IsLabel (codes "a-b") → is_dns1123_label (codes "a-b") ≡ true)
is_dns1123_label_iff_example = is_dns1123_label_iff (codes "a-b")

validate_iff_example :
    (validate codec class_schema (class []) ≡ ok tt → IsAcceptable codec class_schema (class []))
    × (IsAcceptable codec class_schema (class []) → validate codec class_schema (class []) ≡ ok tt)
validate_iff_example = validate_iff codec class_schema (class [])

written :
    codec.yaml_marshal (record { meta = test_meta; spec = class (codes "page") })
    ≡ inr (0 ∷ codes "page")
unfolding ◌==◌
written = refl

from_yaml-to_yaml_example :
    (to_yaml codec descriptor product ≡ ok (0 ∷ codes "page"))
    × (from_yaml codec descriptor (0 ∷ codes "page") ≡ ok product)
from_yaml-to_yaml_example =
    from_yaml-to_yaml codec codec_laws descriptor product found accepted registered refl refl
      (class (codes "page")) (0 ∷ codes "page") refl written

decoded :
    from_json codec descriptor (record { meta = test_meta; spec = class (codes "page") })
    ≡ ok product
unfolding from_json from_json_map get_by_type validate is_dns1123_label ◌==◌
decoded = refl

-- Two classes of one key, of which the later stays, and a plan that serves it.
abbrev pub entry_of : Text → Text → TestMessage → Entry TestMessage
entry_of typ name m = record { meta = record test_meta { type = typ; name = name }; spec = m }

abbrev pub classes : List (Entry TestMessage)
classes =
    entry_of (codes "service-class") (codes "x") (class (codes "old"))
    ∷ entry_of (codes "service-class") (codes "x") (class (codes "new"))
    ∷ []

abbrev pub plans : List (Entry TestMessage)
plans =
    entry_of (codes "service-plan") (codes "p") (plan (codes "service-class/default/x"))
    ∷ entry_of (codes "service-plan") (codes "q") (plan (codes "service-class/default/y"))
    ∷ []

-- The store of these entries; its world counts the requests.
abbrev pub store : Store ℕ TestMessage
store = record {
  descriptor = descriptor;
  get = λ typ name namespace w. (ok none, suc w);
  list = λ typ namespace w.
      if typ == codes "service-class"
      then (ok (classes, none), suc w)
      else if typ == codes "service-plan"
      then (ok (plans, none), suc w)
      else (err (foreign (codes "no such type")), suc w);
  create = λ e w. (err (foreign (codes "read only")), suc w);
  update = λ e w. (err (foreign (codes "read only")), suc w);
  delete = λ typ name namespace w. (err (foreign (codes "read only")), suc w);
}

pub listed_classes :
    (w : ℕ) → store.list (service_class TestMessage).type [] w ≡ (ok (classes, none), suc w)
unfolding ◌==◌
listed_classes w = refl

pub listed_plans :
    (w : ℕ) → store.list (service_plan TestMessage).type [] w ≡ (ok (plans, none), suc w)
unfolding ◌==◌
listed_plans w = refl

classes_run :
    service_classes msgs ranging store 0
    ≡ (ok ((codes "service-class/default/x", codes "new") ∷ []), 1)
unfolding service_classes lookup insert ◌==◌ entry_key collect
classes_run = refl

service_plans_by_service-IsOffer_example :
    (all d : Dict Text) × IsView cast_plan plans all
    × IsOffer msgs (codes "service-class/default/x") all d
    × (service_plans_by_service msgs ranging store (codes "service-class/default/x") 0 ≡ (ok d, 2))
service_plans_by_service-IsOffer_example =
    service_plans_by_service-IsOffer msgs ranging store plans 0 1 (codes "service-class/default/x")
      (listed_plans 0)
