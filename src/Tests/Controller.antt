-- ===== src/Tests/Controller.antt =====
-- The catalog and its answer at concrete inputs.
use old_broker_repo.Prelude.{
  ℕ, suc, Text, codes, List, [], ◌∷◌, none, some, ok, err, panic, map, inr, ◌≡◌, ◌≢◌, refl, arith,
  Error, ◌⊎◌, ◌==◌,
}
use old_broker_repo.Prelude.Dict.{lookup, insert}
use old_broker_repo.Config.Store.{entry_key}
use old_broker_repo.Config.BrokerStore.{
  collect, contains, service_classes, service_plans, service_plans_by_service, offering,
  make_broker_config_store,
}
use old_broker_repo.Osb.{Catalog, add_plan, add_service, new_service, new_service_plan}
use old_broker_repo.Controller.{catalog, add_services, add_plans}
use old_broker_repo.Controller.Offer.{IsCatalogOf}
use old_broker_repo.Controller.Faithful.{IsSteady, catalog-IsCatalogOf}
use old_broker_repo.Prelude.Calls.{Ranging}
use mathlib.Core.List.{reverse}
use mathlib.Core.List.Permᴰ
use mathlib.Core.Quot.{Quot}
use old_broker_repo.Controller.Unordered.{SameCatalog, Menu, catalog-unordered}
use old_broker_repo.Controller.Handler.{handle_catalog}
use old_broker_repo.Controller.Handler.Answers.{handle_catalog-IsCatalogOf}
use old_broker_repo.Controller.Response.{
  set_header, write_header, write_body, Event, write_response, after_write,
}
use old_broker_repo.Controller.Response.Format.{print_format}
use old_broker_repo.Controller.Response.Sent.{body_of, write_response_corrupt}
use old_broker_repo.Tests.World.{msgs, ranging}
use old_broker_repo.Tests.Config.{classes, plans, store, listed_classes, listed_plans}

-- The names of the services and of their plans.
abbrev names : Catalog → List (Text × List Text)
names cat = map (λ s. (s.name, map (λ p. p.name) s.plans)) cat.services

abbrev run_catalog : List (Text × List Text)
run_catalog = elim (catalog msgs ranging (make_broker_config_store msgs ranging store) 0).0 [
  | ok cat ↦ names cat
  | err e ↦ []
  | panic ↦ []
]

-- The later class is offered, with the plan that names its key.
catalog_run : run_catalog ≡ (codes "new", codes "service-class/default/x" ∷ []) ∷ []
unfolding catalog add_services add_plans make_broker_config_store service_classes service_plans
    service_plans_by_service offering collect contains lookup insert entry_key ◌==◌ add_plan
    add_service new_service new_service_plan
catalog_run = refl

steady : IsSteady msgs ranging store (λ w. Unit {0}) classes plans
steady = record {
  listed_classes = λ w h. (suc w, listed_classes w, tt);
  listed_plans = λ w h. (suc w, listed_plans w, tt);
  visited = λ V m w h. tt;
}

catalog-IsCatalogOf_example :
    (cat : Catalog) × (w : ℕ) × (catalog msgs ranging
        (make_broker_config_store msgs ranging store)
        0
      ≡ (ok cat, w))
    × Unit {0}
    × IsCatalogOf msgs classes plans cat
catalog-IsCatalogOf_example = catalog-IsCatalogOf msgs ranging store steady 0 tt

-- Maps are visited from their ends.
abbrev backwards : Ranging ℕ
backwards = record {
  visit = λ m w. (reverse m, w);
  visit_perm = λ m w. Permᴰ.symm (Permᴰ.reverse m);
}

backwards-IsSteady : IsSteady msgs backwards store (λ w. Unit {0}) classes plans
backwards-IsSteady = record {
  listed_classes = λ w h. (suc w, listed_classes w, tt);
  listed_plans = λ w h. (suc w, listed_plans w, tt);
  visited = λ V m w h. tt;
}

catalog-unordered_example :
    (a b : Catalog) × (v v' : ℕ) × (catalog msgs ranging
        (make_broker_config_store msgs ranging store)
        0
      ≡ (ok a, v))
    × (catalog msgs backwards (make_broker_config_store msgs backwards store) 5 ≡ (ok b, v'))
    × SameCatalog a b
    × (◌≡◌ {A = Menu} (Quot.mk a) (Quot.mk b))
catalog-unordered_example =
    catalog-unordered msgs ranging backwards store steady backwards-IsSteady 0 5 tt tt

abbrev marshal : Catalog → Error ⊎ Text
marshal cat = inr (codes "{}")

handle_catalog-IsCatalogOf_example :
    (cat : Catalog) × (text : Text) × (w : ℕ) × IsCatalogOf msgs classes plans cat
    × (marshal cat ≡ inr text)
    × (handle_catalog msgs ranging marshal none
          (record { broker_config_store = make_broker_config_store msgs ranging store })
          0
        ≡ (
          ok (
              some (
                set_header (codes "content-type") (codes "application/json")
                ∷ write_header 200
                ∷ write_body text
                ∷ after_write none)),
          w,
        ))
    × Unit {0}
handle_catalog-IsCatalogOf_example =
    handle_catalog-IsCatalogOf msgs ranging store steady marshal none
      (λ cat h. (codes "{}", refl, omega arith)) 0 tt

abbrev corrupted : List Event
corrupted =
    set_header (codes "content-type") (codes "application/json")
    ∷ write_header 200
    ∷ write_body (codes "5%!,(MISSING)}")
    ∷ []

corrupt_run : write_response 200 (inr (codes "5%,}")) none ≡ some corrupted
unfolding write_response print_format
corrupt_run = refl

write_response_corrupt_example : body_of corrupted ≢ some (codes "5%,}")
write_response_corrupt_example =
    write_response_corrupt 200 (codes "5") (codes "}") b',' none corrupted (omega arith) refl
      (omega arith) refl corrupt_run
