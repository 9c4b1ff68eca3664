-- ===== src/Tests/Registration.antt =====
-- The registration of the definitions at concrete inputs.
use old_broker_repo.Prelude.{
  ℕ, suc, codes, List, [], ◌∷◌, Bool, true, false, Option, none, some, Error, foreign, ok, err,
  panic, Result, ◌⊎◌, inr, ◌≡◌, ◌≢◌, ◌↔◌, refl,
}
use old_broker_repo.Config.BrokerStore.{broker_config_types}
use old_broker_repo.Config.Descriptor.{Descriptor}
use old_broker_repo.Crd.Registration.{
  Extensions, Condition, established, names_accepted, condition_true, condition_false,
  check_established, deregister_resources, register_resources,
}
use old_broker_repo.Crd.Registration.Conditions.{IsEstablished}
use old_broker_repo.Crd.Registration.Correct.{
  Created, AllEstablished, deleted, deregister_resources_lem, check_established-cases,
}
use old_broker_repo.Crd.Registration.Outcome.{
  PollLaws, IsRegistered, register_resources_iff, register_resources-deleted,
}

abbrev is_ready : Condition
is_ready = record { type = established; status = condition_true; reason = [] }

abbrev conflict : Condition
conflict = record { type = names_accepted; status = condition_false; reason = codes "Conflict" }

abbrev is_foreign : Error → Bool
is_foreign (foreign e) = true
is_foreign _ = false

abbrev polled : Result Bool × ℕ → Option Error × ℕ
polled (ok true, w) = (none, w)
polled (ok false, w) = (some (foreign (codes "timed out")), w)
polled (err e, w) = (some e, w)
polled (panic, w) = (none, w)

-- A server that counts requests, has every definition already, and reports the same conditions of
-- each.
abbrev api : List Condition → Extensions ℕ
api conds = record {
  new_for_config = λ w. (inr tt, suc w);
  create = λ def w. (some (foreign (codes "already exists")), suc w);
  get = λ name w. (inr conds, suc w);
  delete = λ name w. (none, suc w);
  is_already_exists = is_foreign;
  poll = λ condition w. polled (condition (suc w));
}

polled_done : {r : Result Bool × ℕ} {w' : ℕ} → r ≡ (ok true, w') → polled r ≡ (none, w')
polled_done p = rw p

polled_error :
    {r : Result Bool × ℕ} {w' : ℕ} {e : Error} → r ≡ (err e, w') → polled r ≡ (some e, w')
polled_error p = rw p

laws : (conds : List Condition) → PollLaws (api conds)
laws conds = record {
  tick = suc;
  poll_done = λ {condition} {w} {w'} p. polled_done p;
  poll_error = λ {condition} {w} {w'} {e} p. polled_error p;
}

abbrev descriptor : Descriptor (Unit {0})
descriptor = broker_config_types (Unit {0})

check_established-cases_example :
    ((w : ℕ) × (check_established (api []) descriptor 3 ≡ (ok true, w))
      × AllEstablished (api []) descriptor 3 w)
    ⊎ ((e : Error) × (w : ℕ) × (check_established (api []) descriptor 3 ≡ (err e, w))
        × (descriptor ≢ []))
check_established-cases_example = check_established-cases (api []) descriptor 3

deregister_resources_lem_example :
    ((deregister_resources (api []) descriptor 0).1 ≡ deleted (api []) descriptor 1)
    × (((deregister_resources (api []) descriptor 0).0 ≡ ok tt) ↔ (descriptor ≡ []))
deregister_resources_lem_example = deregister_resources_lem (api []) descriptor 0 1 refl

register_resources_iff_example :
    (register_resources (api (is_ready ∷ [])) descriptor 0 ≡ (ok tt, 6))
    ↔ IsRegistered (api (is_ready ∷ [])) (laws (is_ready ∷ [])) descriptor 0 6
register_resources_iff_example =
    register_resources_iff (api (is_ready ∷ [])) (laws (is_ready ∷ [])) descriptor 0 6

registered_run : register_resources (api (is_ready ∷ [])) descriptor 0 ≡ (ok tt, 6)
unfolding register_resources
registered_run = refl

not_listed :
    (conds : List Condition) (w w' : ℕ)
    → ◌≡◌ {A = (Error ⊎ List Condition) × ℕ} (inr [], w) (inr conds, w')
    → ¬ IsEstablished conds
not_listed [] w w' p (c, m, s) = elim m [ ]
not_listed (c ∷ conds) w w' p h = cc

never_established : ¬ ((w : ℕ) × AllEstablished (api []) descriptor 4 w)
never_established (w, AllEstablished.next {w₁} {conds} p e a) = not_listed conds 5 w₁ p e

register_resources-deleted_example :
    (x : Error) × (register_resources (api []) descriptor 0
      ≡ (err x, deleted (api []) descriptor (suc (check_established (api []) descriptor 4).1)))
unfolding laws
register_resources-deleted_example =
    register_resources-deleted (api []) (laws []) descriptor 0 (λ v. refl) 1 3 refl
      (Created.exists refl refl (Created.exists refl refl Created.done)) never_established
