-- ===== src/Server.antt =====
-- pkg/server/broker.go: the server, made of a client, a broker store and a controller.
pub mod Address
pub mod Serves
use old_broker_repo.Prelude.{ℕ, Text, codes, List, [], ◌∷◌, Option, Error, Act}
use old_broker_repo.Prelude.Calls.{pure, of_result, ◌>>=◌, Ranging}
use old_broker_repo.Proto.{Messages}
use old_broker_repo.Config.Codec.{Codec}
use old_broker_repo.Config.BrokerStore.{broker_config_types, make_broker_config_store}
use old_broker_repo.Crd.Client.{as_store}
use old_broker_repo.Controller.Handler.{Controller, create_controller}
use old_broker_repo.Server.Address.{address}
use old_broker_repo.Crd.Connection.{Setup, new_client}

pub record Server (W : Type 0) (msgs : Messages) : Type 0 where
  pub ctr : Controller W msgs

module _ {W : Type 0} (msgs : Messages) (ranging : Ranging W) (c : Codec msgs.Message)
    (nil_map : c.Value) (setup : Setup W c.Value) where
  unfoldable pub create_server : Text → Act W (Server W msgs)
  create_server kubeconfig = do
    cc ← new_client setup kubeconfig (broker_config_types msgs.Message)
    ctr ←
        of_result
          (create_controller (make_broker_config_store msgs ranging (as_store c nil_map cc)))
    pure (record { ctr = ctr })

-- What the mux router and net/http are given: the handler of a path, for a method.
pub record Route (W : Type 0) (Answer : Type 0) : Type 0 where
  pub path : Text
  pub method : Text
  pub handler : Act W Answer

-- `http.ListenAndServe` on the address, with the routes at the root of the default handler.
abbrev pub Listen : Type 0 → Type 0 → Type 0
Listen W Answer = Text → List (Route W Answer) → W → Option Error × W

-- `Start`: the error of the listener is only logged. `handler` is the controller's handler for what
-- a server's request brings with it.
unfoldable pub start :
    {W Answer : Type 0} {msgs : Messages}
    → Listen W Answer
    → (Controller W msgs → Act W Answer)
    → Server W msgs
    → ℕ
    → W
    → W
start listen handler s port w =
    (listen (address port)
      (record { path = codes "/v2/catalog"; method = codes "GET"; handler = handler s.ctr } ∷ [])
      w).1
