-- ===== src/Tests/Server.antt =====
-- A server on the small cluster.
use old_broker_repo.Prelude.{ℕ, suc, Text, codes, false, ok, inr, ◌≡◌, refl, ◌==◌}
use old_broker_repo.Config.Schema.{from_json_map}
use old_broker_repo.Config.Descriptor.{get_by_type}
use old_broker_repo.Config.BrokerStore.{broker_config_types}
use old_broker_repo.Osb.{Catalog}
use old_broker_repo.Crd.Names.{resource_names}
use old_broker_repo.Crd.Objects.{get_items, known_types}
use old_broker_repo.Crd.Conversion.{convert_object}
use old_broker_repo.Crd.Client.{check_types}
use old_broker_repo.Crd.Client.Listing.{Converted}
use old_broker_repo.Crd.Connection.{Setup, new_client}
use old_broker_repo.Controller.{catalog}
use old_broker_repo.Controller.Offer.{IsCatalogOf}
use old_broker_repo.Server.{Server, create_server}
use old_broker_repo.Server.Serves.{create_server-IsCatalogOf}
use old_broker_repo.Tests.World.{TestMessage, junk, msgs, codec, ranging}
use old_broker_repo.Tests.Cluster.{server, client, classes, plans, Always}

abbrev pub setup : Setup ℕ TestMessage
setup = record {
  Base = Text;
  Scheme = Text;
  stat = λ file w. (inr 0, suc w);
  is_not_exist = λ e. false;
  in_cluster_config = λ w. (inr (codes "cluster"), suc w);
  build_config_from_flags = λ file w. (inr file, suc w);
  known_scheme = λ group version. inr group;
  rest_client_for = λ config w. (inr server, suc w);
}

connected : new_client setup (codes "config") (broker_config_types TestMessage) 0 ≡ (ok client, 3)
unfolding new_client check_types known_types ◌==◌
connected = refl

create_server-IsCatalogOf_example :
    (srv : Server ℕ msgs) × (cat : Catalog) × (v : ℕ) × (create_server msgs ranging codec junk setup
        (codes "config")
        0
      ≡ (ok srv, 3))
    × (catalog msgs ranging srv.ctr.broker_config_store 3 ≡ (ok cat, v))
    × Always v
    × IsCatalogOf msgs classes plans cat
unfolding get_by_type ◌==◌ resource_names get_items convert_object from_json_map
create_server-IsCatalogOf_example =
    create_server-IsCatalogOf msgs ranging codec junk setup (codes "config") 0 3 client connected
      (
        record {
          found = refl;
          answer = λ w h. (suc w, (λ items. refl), tt);
          converted = Converted.good refl Converted.done;
        },
        record {
          found = refl;
          answer = λ w h. (suc w, (λ items. refl), tt);
          converted = Converted.good refl Converted.done;
        },
      )
      (λ V m w h. tt) 3 tt
