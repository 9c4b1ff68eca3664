-- ===== src/Server/Serves.antt =====
-- What a server serves.
use old_broker_repo.Prelude.{Text, List, ok, ◌≡◌}
use old_broker_repo.Prelude.Dict.{Dict}
use old_broker_repo.Prelude.Calls.{Ranging}
use old_broker_repo.Proto.{Messages}
use old_broker_repo.Config.Resource.{Entry}
use old_broker_repo.Config.Codec.{Codec}
use old_broker_repo.Config.BrokerStore.{
  service_class, service_plan, broker_config_types, make_broker_config_store,
}
use old_broker_repo.Osb.{Catalog}
use old_broker_repo.Crd.Objects.{IstioKindList}
use old_broker_repo.Crd.Client.{Client, as_store}
use old_broker_repo.Crd.Connection.{Setup, new_client}
use old_broker_repo.Crd.Connection.Origin.{new_client-AreKnown}
use old_broker_repo.Controller.{catalog}
use old_broker_repo.Controller.Handler.{create_controller}
use old_broker_repo.Controller.Offer.{IsCatalogOf}
use old_broker_repo.Controller.Cluster.{IsListed, catalog-as_store-IsCatalogOf}
use old_broker_repo.Server.{Server, create_server}

module _ {W : Type 0} (msgs : Messages) (ranging : Ranging W) (c : Codec msgs.Message)
    (nil_map : c.Value) (setup : Setup W c.Value) (kubeconfig : Text) (w w₁ : W)
    (cl : Client W msgs.Message c.Value)
    (connected : new_client setup kubeconfig (broker_config_types msgs.Message) w
      ≡ (ok cl, w₁)) where
  -- If NewClient connects to a cluster with the broker's types, then CreateServer returns a server
  -- whose controller answers as follows in every world in which the cluster answers the listings of
  -- classes and plans with objects that can all be converted, and visiting a map changes nothing of
  -- this: a catalog request gives a catalog with one service for each service class of the cluster,
  -- in some order, each with the class's name, id and description and with exactly the plans that
  -- name the class's key, each once.
  pub create_server-IsCatalogOf :
      {Steady : W → Type 0} {lc lp : IstioKindList c.Value}
      {classes plans : List (Entry msgs.Message)}
      → (let known =
            (new_client-AreKnown setup kubeconfig
              (broker_config_types msgs.Message)
              w
              w₁
              cl
              connected).1 in
          IsListed msgs ranging c nil_map cl known Steady (service_class msgs.Message) lc classes
          × IsListed msgs ranging c nil_map cl known Steady (service_plan msgs.Message) lp plans)
      → ((V : Type 0) (m : Dict V) (v : W) → Steady v → Steady (ranging.visit m v).1)
      → (v : W) → Steady v
      → (srv : Server W msgs) × (cat : Catalog) × (v' : W) × (create_server msgs ranging c nil_map
            setup kubeconfig w
          ≡ (ok srv, w₁))
        × (catalog msgs ranging srv.ctr.broker_config_store v ≡ (ok cat, v'))
        × Steady v'
        × IsCatalogOf msgs classes plans cat
  unfolding create_server create_controller
  create_server-IsCatalogOf (hc, hp) hv v st =
      let known =
        (new_client-AreKnown setup kubeconfig (broker_config_types msgs.Message) w w₁ cl
          connected).1 in
      let (cat, v', e, st', h) =
        catalog-as_store-IsCatalogOf msgs ranging c nil_map cl known hc hp hv v st in
      (
        record {
          ctr = record {
            broker_config_store = make_broker_config_store msgs ranging (as_store c nil_map cl);
          };
        },
        cat,
        v',
        rw connected,
        e,
        st',
        h,
      )
