-- ===== src/Tests/Crd.antt =====
-- The custom resources at concrete inputs.
use old_broker_repo.Prelude.{
  ℕ, suc, Text, codes, List, [], ◌∷◌, Option, none, some, Error, ok, err, panic, inr, ◌≡◌, ◌≢◌, ◌↔◌,
  refl, arith, ◌==◌, foreign, Memᴰ,
}
use old_broker_repo.Config.Resource.{Entry}
use old_broker_repo.Config.Schema.{Schema, from_json_map, run_additional}
use old_broker_repo.Config.Descriptor.{get_by_type}
use old_broker_repo.Config.BrokerStore.{service_class, broker_config_types, service_classes}
use old_broker_repo.Crd.Names.{split, kabob_case_to_camel_case, resource_names}
use old_broker_repo.Crd.Names.Kebab.{
  camel_case_to_kabob_case, camel_case_to_kabob_case-kabob_case_to_camel_case,
}
use old_broker_repo.Crd.Objects.{
  IstioKind, IstioKindList, empty_meta, known_types, get_items, list_deep_copy,
}
use old_broker_repo.Crd.Objects.Copies.{list_deep_copy-panic_iff}
use old_broker_repo.Crd.Conversion.{convert_config, convert_object}
use old_broker_repo.Crd.Conversion.Round.{convert_object-convert_config}
use old_broker_repo.Crd.Client.{
  RestClient, Client, create, update, get, delete, list, check_types, as_store,
}
use old_broker_repo.Crd.Client.Guards.{IsRefused, create_refuses, update_refuses}
use old_broker_repo.Crd.Client.Listing.{Converted}
use old_broker_repo.Crd.Client.Total.{AreKnown, check_types_iff, list_returns}
use old_broker_repo.Crd.Client.Safe.{operations-ne-panic}
use old_broker_repo.Crd.Client.Hiding.{service_classes_hidden}
use old_broker_repo.Tests.World.{
  TestMessage, class, junk, msgs, codec, codec_laws, ranging, test_meta, message_name,
}

names_of_class : resource_names (service_class TestMessage) ≡ (
  codes "ServiceClass",
  codes "serviceclass",
  codes "serviceclasses",
  codes "serviceclasses.config.istio.io",
)
unfolding resource_names
names_of_class = refl

-- Of a rune that is not ASCII, only the first byte is written.
first_bytes :
    camel_case_to_kabob_case (110 ∷ 97 ∷ 195 ∷ 175 ∷ 86 ∷ []) ≡ 110 ∷ 97 ∷ 195 ∷ 45 ∷ 118 ∷ []
unfolding camel_case_to_kabob_case
first_bytes = refl

camel_case_to_kabob_case-kabob_case_to_camel_case_example :
    camel_case_to_kabob_case (kabob_case_to_camel_case (codes "example-x-y1"))
    ≡ codes "example-x-y1"
unfolding split
camel_case_to_kabob_case-kabob_case_to_camel_case_example =
    camel_case_to_kabob_case-kabob_case_to_camel_case (codes "example-x-y1") (ground arith)

-- An object with a readable message, and one with a message of no type.
abbrev object_of : Option TestMessage → IstioKind TestMessage
object_of spec = record {
  type_meta = record { kind = []; api_version = [] };
  object_meta = record empty_meta { name = codes "x"; resource_version = codes "1" };
  spec = spec;
}

abbrev list_of : List (Option (IstioKind TestMessage)) → IstioKindList TestMessage
list_of items = record { type_meta = record { kind = []; api_version = [] }; items = some items }

list_deep_copy-panic_iff_example : (list_deep_copy (some (list_of (none ∷ []))) ≡ panic) ↔ (
    (item : Option (IstioKind TestMessage)) × (items : List (Option (IstioKind TestMessage)))
    × (some (none ∷ []) ≡ some (item ∷ items)))
list_deep_copy-panic_iff_example = list_deep_copy-panic_iff (list_of (none ∷ []))

known : AreKnown TestMessage (broker_config_types TestMessage)
unfolding check_types known_types ◌==◌
known = (check_types_iff TestMessage (broker_config_types TestMessage)).0 refl

class_known : known_types {Value = TestMessage} (codes "service-class") ≢ none
class_known = known.0

abbrev product : Entry TestMessage
product = record { meta = test_meta; spec = class (codes "page") }

registered : codec.message_type (message_name (class (codes "page"))) ≡ some (class [])
unfolding ◌==◌
registered = refl

convert_object-convert_config_example :
    (k : IstioKind TestMessage) × (convert_config codec junk (service_class TestMessage) product
      ≡ ok k)
    × (k.object_meta.name ≡ codes "productpage")
    × (k.object_meta.namespace ≡ codes "default")
    × (k.object_meta.resource_version ≡ codes "7")
    × (convert_object codec junk (service_class TestMessage) (some k) ≡ ok product)
convert_object-convert_config_example =
    convert_object-convert_config codec junk codec_laws (service_class TestMessage) product
      registered refl refl class_known

abbrev refusal : Error
refusal = foreign (codes "no such object")

-- A server that counts requests and lists two objects, of which the second has no readable message.
abbrev items : List (Option (IstioKind TestMessage))
items = some (object_of (some (class (codes "page")))) ∷ some (object_of none) ∷ []

abbrev server : RestClient ℕ TestMessage
server = record {
  get_into = λ ns res name k w. ((some refusal, k), suc w);
  list_into = λ ns res l w. ((none, list_of items), suc w);
  post_into = λ ns res body k w. ((none, body), suc w);
  put_into = λ ns res name body k w. ((none, body), suc w);
  delete = λ ns res name w. (some refusal, suc w);
}

abbrev client : Client ℕ TestMessage TestMessage
client = record { descriptor = broker_config_types TestMessage; dynamic = server }

convert_junk :
    convert_object codec junk (service_class TestMessage) (some (object_of none))
    ≡ err (foreign (codes "no encoding"))
unfolding convert_object from_json_map
convert_junk = refl

found :
    get_by_type (broker_config_types TestMessage) (codes "service-class")
    ≡ some (service_class TestMessage)
unfolding get_by_type ◌==◌
found = refl

list_returns_example :
    (out : List (Entry TestMessage)) × (errs : Option Error) × (n : ℕ) × (list codec junk client
        (codes "service-class")
        []
        0
      ≡ (ok (out, errs), 1))
    × Converted codec junk (service_class TestMessage) (get_items (list_of items)) out n
    × ((errs ≡ none) ↔ ((◌≡◌ {A = Option Error} none none) × (n ≡ 0)))
unfolding get_items
list_returns_example =
    list_returns codec junk client known (codes "service-class") found [] 0 1 none (list_of items)
      (λ l p. refl) ((λ p. cc), ((λ p. cc), tt))

service_classes_hidden_example :
    service_classes msgs ranging (as_store codec junk client) 0 ≡ (ok [], 1)
unfolding get_items
service_classes_hidden_example =
    service_classes_hidden msgs ranging codec junk client known found 0 1 (list_of items)
      (some (object_of none)) (foreign (codes "no encoding")) (λ l p. refl)
      ((λ p. cc), ((λ p. cc), tt)) (Memᴰ.tail (Memᴰ.head refl)) convert_junk

abbrev unknown : Entry TestMessage
unknown = record {
  meta = record test_meta { type = codes "route-rule" };
  spec = class (codes "page");
}

unknown_unfound :
    (s : Schema TestMessage)
    → get_by_type (broker_config_types TestMessage) (codes "route-rule") ≢ some s
unfolding get_by_type ◌==◌
unknown_unfound s p = cc

create_refuses_example : IsRefused 0 (create codec junk client unknown 0)
create_refuses_example =
    create_refuses codec junk client unknown 0 (λ s p. absurd (unknown_unfound s p))

-- An acceptable entry with no revision.
abbrev unrevised : Entry TestMessage
unrevised = record product { meta = record test_meta { resource_version = [] } }

update_refuses_example : IsRefused 0 (update codec junk client unrevised 0)
update_refuses_example = update_refuses codec junk client unrevised 0 (λ s p. inr refl)

no_checks :
    (typ : Text) (s : Schema TestMessage) (m : TestMessage)
    → get_by_type (broker_config_types TestMessage) typ ≡ some s
    → run_additional codec s.additional_validate m ≢ panic
unfolding get_by_type run_additional
no_checks typ s m p = ground arith

operations-ne-panic_example :
    ((create codec junk client product 0).0 ≢ panic)
    × ((update codec junk client product 0).0 ≢ panic)
    × ((get codec junk client (codes "service-class") (codes "x") [] 0).0 ≢ panic)
    × ((delete codec junk client (codes "service-class") (codes "x") [] 0).0 ≢ panic)
operations-ne-panic_example =
    operations-ne-panic codec junk client known no_checks 0 product (codes "service-class")
      (codes "x") [] (λ p. cc p)
