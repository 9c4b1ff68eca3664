-- ===== src/Tests/Cluster.antt =====
-- The catalog of a small cluster.
use old_broker_repo.Prelude.{
  ℕ, suc, Text, codes, List, [], ◌∷◌, none, some, Error, foreign, refl, ◌==◌, if◌then◌else◌,
}
use old_broker_repo.Config.Resource.{Entry}
use old_broker_repo.Config.Schema.{from_json_map}
use old_broker_repo.Config.Descriptor.{get_by_type}
use old_broker_repo.Config.BrokerStore.{service_class, service_plan, broker_config_types}
use old_broker_repo.Crd.Names.{resource_names}
use old_broker_repo.Crd.Objects.{IstioKind, IstioKindList, empty_meta, get_items, known_types}
use old_broker_repo.Crd.Conversion.{convert_object}
use old_broker_repo.Crd.Client.{RestClient, Client, check_types}
use old_broker_repo.Crd.Client.Listing.{Converted}
use old_broker_repo.Crd.Client.Total.{AreKnown, check_types_iff}
use old_broker_repo.Controller.Cluster.{IsListed}
use old_broker_repo.Tests.World.{TestMessage, class, plan, junk, msgs, codec, ranging}

abbrev object_of : Text → TestMessage → IstioKind TestMessage
object_of name m = record {
  type_meta = record { kind = []; api_version = [] };
  object_meta = record empty_meta { name = name };
  spec = some m;
}

abbrev entry_of : Text → Text → TestMessage → Entry TestMessage
entry_of typ name m = record {
  meta = record {
    type = typ;
    name = name;
    namespace = [];
    istio_namespace = [];
    labels = [];
    annotations = [];
    resource_version = [];
  };
  spec = m;
}

abbrev list_of : IstioKind TestMessage → IstioKindList TestMessage
list_of k = record {
  type_meta = record { kind = []; api_version = [] };
  items = some (some k ∷ []);
}

abbrev pub listed_classes : IstioKindList TestMessage
listed_classes = list_of (object_of (codes "x") (class (codes "page")))

abbrev pub listed_plans : IstioKindList TestMessage
listed_plans = list_of (object_of (codes "p") (plan (codes "service-class//x")))

abbrev refusal : Error
refusal = foreign (codes "read only")

-- A server with one class and one plan, which counts requests.
abbrev pub server : RestClient ℕ TestMessage
server = record {
  get_into = λ ns res name k w. ((some refusal, k), suc w);
  list_into = λ ns res l w.
      if res == codes "serviceclasses"
      then ((none, listed_classes), suc w)
      else ((none, listed_plans), suc w);
  post_into = λ ns res body k w. ((some refusal, k), suc w);
  put_into = λ ns res name body k w. ((some refusal, k), suc w);
  delete = λ ns res name w. (some refusal, suc w);
}

abbrev pub client : Client ℕ TestMessage TestMessage
client = record { descriptor = broker_config_types TestMessage; dynamic = server }

pub known : AreKnown TestMessage (broker_config_types TestMessage)
unfolding check_types known_types ◌==◌
known = (check_types_iff TestMessage (broker_config_types TestMessage)).0 refl

abbrev pub classes : List (Entry TestMessage)
classes = entry_of (codes "service-class") (codes "x") (class (codes "page")) ∷ []

abbrev pub plans : List (Entry TestMessage)
plans = entry_of (codes "service-plan") (codes "p") (plan (codes "service-class//x")) ∷ []

abbrev pub Always : ℕ → Type 0
Always w = Unit

classes-IsListed :
    IsListed msgs ranging codec junk client known Always
      (service_class TestMessage)
      listed_classes
      classes
unfolding get_by_type ◌==◌ resource_names get_items convert_object from_json_map
classes-IsListed = record {
  found = refl;
  answer = λ w h. (suc w, (λ items. refl), tt);
  converted = Converted.good refl Converted.done;
}

plans-IsListed :
    IsListed msgs ranging codec junk client known Always
      (service_plan TestMessage)
      listed_plans
      plans
unfolding get_by_type ◌==◌ resource_names get_items convert_object from_json_map
plans-IsListed = record {
  found = refl;
  answer = λ w h. (suc w, (λ items. refl), tt);
  converted = Converted.good refl Converted.done;
}
