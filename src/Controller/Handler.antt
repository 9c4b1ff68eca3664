-- ===== src/Controller/Handler.antt =====
-- Catalog and CreateController of controller.go: the answer to a catalog request.
pub mod Answers
use old_broker_repo.Prelude.{Text, List, Option, Error, Result, ok, ◌⊎◌, Act}
use old_broker_repo.Prelude.Calls.{pure, ◌>>=◌, Ranging}
use old_broker_repo.Proto.{Messages}
use old_broker_repo.Config.BrokerStore.{BrokerConfigStore}
use old_broker_repo.Osb.{Catalog}
use old_broker_repo.Controller.{catalog}
use old_broker_repo.Controller.Response.{Event, status_ok, write_response}

pub record Controller (W : Type 0) (msgs : Messages) : Type 0 where
  pub broker_config_store : BrokerConfigStore W msgs

-- It has an error among its results, which is always nil.
unfoldable pub create_controller :
    {W : Type 0} {msgs : Messages} → BrokerConfigStore W msgs → Result (Controller W msgs)
create_controller config = ok (record { broker_config_store = config })

-- `Catalog(w, _)`: what is called on `w`, where `marshal` is json.Marshal and `write_error` what the
-- writer reports for the body; `none` where `print_format` does not know the encoded catalog.
unfoldable pub handle_catalog :
    {W : Type 0} (msgs : Messages)
    → Ranging W
    → (Catalog → Error ⊎ Text)
    → Option Error
    → Controller W msgs
    → Act W (Option (List Event))
handle_catalog msgs ranging marshal write_error c = do
  cat ← catalog msgs ranging c.broker_config_store
  pure (write_response status_ok (marshal cat) write_error)
