-- ===== src/Controller.antt =====
-- pkg/controller/controller.go: the catalog of the broker, and the answer to a catalog request.
pub mod Response
pub mod Handler
pub mod Offer
pub mod Faithful
pub mod Cluster
pub mod Served
pub mod Unordered
pub mod Offered
use old_broker_repo.Prelude.{Text, List, [], ◌∷◌, Act}
use old_broker_repo.Prelude.Dict.{Dict}
use old_broker_repo.Prelude.Calls.{pure, run, ◌>>=◌, Ranging}
use old_broker_repo.Proto.{Messages}
use old_broker_repo.Config.BrokerStore.{BrokerConfigStore}
use old_broker_repo.Osb.{Service, Catalog, add_service, add_plan, new_service, new_service_plan}

module _ (msgs : Messages) where
  open msgs use {ServicePlan}

  -- `for pk, p := range …`, in the order of the visit.
  unfoldable pub add_plans : Dict ServicePlan → Service → Service
  add_plans [] js = js
  add_plans ((pk, p) ∷ plans) js = add_plans plans (add_plan js (new_service_plan msgs p))

module _ {W : Type 0} (msgs : Messages) (ranging : Ranging W)
    (store : BrokerConfigStore W msgs) where
  open msgs use {ServiceClass}

  -- `for k, s := range sc`, in the order of the visit.
  unfoldable pub add_services : Dict ServiceClass → Catalog → Act W Catalog
  unfolding add_plans
  add_services [] jc = pure jc
  add_services ((k, s) ∷ sc) jc = do
    plans ← store.service_plans_by_service k
    order ← run (ranging.visit plans)
    add_services sc (add_service jc (add_plans msgs order (new_service msgs s)))

  unfoldable pub catalog : Act W Catalog
  unfolding add_services
  catalog = do
    sc ← store.service_classes
    order ← run (ranging.visit sc)
    add_services order (record { services = [] })
