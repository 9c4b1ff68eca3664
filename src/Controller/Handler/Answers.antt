-- ===== src/Controller/Handler/Answers.antt =====
-- A catalog request is answered with the catalog of the store.
use old_broker_repo.Prelude.{Text, codes, List, ◌∷◌, Option, some, Error, ok, ◌≡◌, ◌⊎◌, inr, ap}
use old_broker_repo.Prelude.Calls.{Ranging}
use old_broker_repo.Proto.{Messages}
use old_broker_repo.Config.Resource.{Entry}
use old_broker_repo.Config.Store.{Store}
use old_broker_repo.Config.BrokerStore.{make_broker_config_store}
use old_broker_repo.Osb.{Catalog}
use old_broker_repo.Controller.Offer.{IsCatalogOf}
use old_broker_repo.Controller.Faithful.{IsSteady, catalog-IsCatalogOf}
use old_broker_repo.Controller.Handler.{handle_catalog}
use old_broker_repo.Controller.Response.{set_header, write_header, write_body, after_write}
use old_broker_repo.Controller.Response.Format.Percent.{NoPercent}
use old_broker_repo.Controller.Response.Sent.{write_response_verbatim}

module _ {W : Type 0} (msgs : Messages) (ranging : Ranging W) (store : Store W msgs.Message)
    {Steady : W → Type 0} {classes plans : List (Entry msgs.Message)}
    (steady : IsSteady msgs ranging store Steady classes plans) (marshal : Catalog → Error ⊎ Text)
    (write_error : Option Error)
    (plain : (cat : Catalog)
      → IsCatalogOf msgs classes plans cat
      → (text : Text) × (marshal cat ≡ inr text) × NoPercent text) where
  -- Where the store lists the classes and the plans with no error, whatever requests came before,
  -- and json.Marshal encodes every such catalog with no percent sign, a catalog request is answered
  -- with the status 200, the content type of JSON and, as it was encoded, a catalog with one
  -- service for each service class that the store shows and its plans; a second status follows
  -- exactly where the writer reports an error.
  pub handle_catalog-IsCatalogOf :
      (w : W)
      → Steady w
      → (cat : Catalog) × (text : Text) × (w' : W) × IsCatalogOf msgs classes plans cat
        × (marshal cat ≡ inr text)
        × (handle_catalog msgs ranging marshal write_error
              (record { broker_config_store = make_broker_config_store msgs ranging store })
              w
            ≡ (
              ok (
                  some (
                    set_header (codes "content-type") (codes "application/json")
                    ∷ write_header 200
                    ∷ write_body text
                    ∷ after_write write_error)),
              w',
            ))
        × Steady w'
  unfolding handle_catalog
  handle_catalog-IsCatalogOf w h =
      let (cat, w', e, h', faithful) = catalog-IsCatalogOf msgs ranging store steady w h in
      let (text, m, p) = plain cat faithful in
      (
        cat,
        text,
        w',
        faithful,
        m,
        rw (e, m) (ap (λ x. (ok x, w')) (write_response_verbatim 200 text write_error p)),
        h',
      )
