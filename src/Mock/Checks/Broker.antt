-- ===== src/Mock/Checks/Broker.antt =====
-- pkg/testing/mock/config.go: whether a store takes the broker's configuration.
pub mod Panics
pub mod Accepts
use old_broker_repo.Prelude.{Text, codes, List, [], ◌∷◌, not, Option, none, some, panic}
use old_broker_repo.Prelude.Calls.{pure, of_result, ◌>>=◌, ◌>>◌}
use old_broker_repo.Config.Resource.{Meta, Entry}
use old_broker_repo.Config.Store.{Store}
use old_broker_repo.Config.BrokerStore.{service_class, service_plan}
use old_broker_repo.Mock.{Fakes}
use old_broker_repo.Mock.Checks.{format, Run, report, attempt, observe, must, report_if}

module _ {Message : Type 0} (fakes : Fakes Message) where
  abbrev example_meta : Text → Text → Meta
  example_meta typ namespace = record {
    type = typ;
    name = codes "example";
    namespace = namespace;
    istio_namespace = [];
    labels = [];
    annotations = [];
    resource_version = [];
  }

  abbrev pub class_case : Text → Entry Message
  class_case namespace = record {
    meta = example_meta (service_class Message).type namespace;
    spec =
        fakes.service_class (codes "productpage") (codes "istio-bookinfo-productpage")
          (codes "4395a443-f49a-41b0-8d14-d17294cf612f") (codes "A book info service");
  }

  abbrev pub plan_case : Text → Entry Message
  plan_case namespace = record {
    meta = example_meta (service_plan Message).type namespace;
    spec =
        fakes.service_plan (codes "istio-monthly") (codes "58646b26-867a-4954-a1b9-233dac07815b")
          (codes "monthly subscription") (codes "productpage-service-class" ∷ []);
  }

  unfoldable pub broker_cases : Text → List (Entry Message)
  broker_cases namespace = class_case namespace ∷ plan_case namespace ∷ []

module _ {W Message : Type 0} (fakes : Fakes Message) (store : Store W Message) where
  -- What was got, reported if it is not there or is not the one wanted: `got.Spec` panics at nil.
  unfoldable pub check_got : Entry Message → Option (Entry Message) → Run W (Unit {0})
  unfolding report report_if
  check_got c none = do report (format (codes "Get(%s) => not found")); of_result panic
  check_got c (some got) =
      report_if (not (fakes.deep_equal_spec got.spec c.spec))
        (format (codes "Get(%s): got %+vwant %+v"))

  -- The body of the loop.
  unfoldable pub check_case : Text → Entry Message → Run W (Unit {0})
  unfolding attempt observe must check_got
  check_case namespace c = do
    created ← attempt (store.create c)
    must (λ e. format (codes "Create(%s) => got %v")) created
    got ← observe (store.get c.type (codes "example") namespace)
    check_got c got

  unfoldable pub check_cases : Text → List (Entry Message) → Run W (Unit {0})
  unfolding check_case
  check_cases namespace [] = pure tt
  check_cases namespace (c ∷ cases) = do check_case namespace c; check_cases namespace cases

  unfoldable pub check_broker_config_types : Text → Run W (Unit {0})
  unfolding check_cases broker_cases
  check_broker_config_types namespace = check_cases namespace (broker_cases fakes namespace)
