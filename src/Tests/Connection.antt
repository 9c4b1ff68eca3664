-- ===== src/Tests/Connection.antt =====
-- Connections at concrete inputs.
use old_broker_repo.Prelude.{
  ℕ, suc, Text, codes, [], ◌∷◌, some, Error, foreign, false, ok, inr, ◌≡◌, refl, ◌==◌,
}
use old_broker_repo.Config.Descriptor.{Descriptor}
use old_broker_repo.Config.BrokerStore.{service_class, broker_config_types}
use old_broker_repo.Crd.Objects.{known_types}
use old_broker_repo.Crd.Client.{RestClient, Client, check_types}
use old_broker_repo.Crd.Client.Total.{AreKnown}
use old_broker_repo.Crd.Connection.{Setup, new_client}

abbrev refusal : Error
refusal = foreign (codes "no such object")

abbrev server : RestClient ℕ ℕ
server = record {
  get_into = λ ns res name k w. ((some refusal, k), suc w);
  list_into = λ ns res l w. ((some refusal, l), suc w);
  post_into = λ ns res body k w. ((some refusal, k), suc w);
  put_into = λ ns res name body k w. ((some refusal, k), suc w);
  delete = λ ns res name w. (some refusal, suc w);
}

-- Every file is empty, and the cluster has a configuration.
abbrev setup : Setup ℕ ℕ
setup = record {
  Base = Text;
  Scheme = Text;
  stat = λ file w. (inr 0, suc w);
  is_not_exist = λ e. false;
  in_cluster_config = λ w. (inr (codes "cluster"), suc w);
  build_config_from_flags = λ file w. (inr file, suc w);
  known_scheme = λ group version. inr group;
  rest_client_for = λ config w. (inr server, suc w);
}

abbrev descriptor : Descriptor (Unit {0})
descriptor = broker_config_types (Unit {0})

abbrev client : Client ℕ (Unit {0}) ℕ
client = record { descriptor = descriptor; dynamic = server }

connected : new_client setup (codes "config") descriptor 0 ≡ (ok client, 3)
unfolding new_client check_types known_types ◌==◌
connected = refl

abbrev unknown : Descriptor (Unit {0})
unknown = record (service_class (Unit {0})) { type = codes "route-rule" } ∷ []

not_known : ¬ AreKnown ℕ unknown
unfolding known_types ◌==◌
not_known h = h.0 refl
