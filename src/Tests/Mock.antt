-- ===== src/Tests/Mock.antt =====
-- The checks of a store at a store in memory, and at the client.
use old_broker_repo.Prelude.{
  Text, codes, List, [], ◌∷◌, ◌++◌, Bool, true, false, not, Option, none, some, foreign, ok, err,
  panic, Memᴰ, ◌≡◌, ◌≢◌, ◌⊎◌, ◌↔◌, refl, ◌==◌, ◌&&◌, if◌then◌else◌, Act, Bool-cases, inl, inr, ◌||◌,
}
use mathlib.Core.List.Permᴰ
use old_broker_repo.Config.Resource.{Entry, Labels}
use old_broker_repo.Config.Descriptor.{get_by_type}
use old_broker_repo.Config.Store.{Store}
use old_broker_repo.Config.BrokerStore.{broker_config_types}
use old_broker_repo.Mock.{
  Fakes, FakeConfig, Pair, fake_config, make, make_with, fake_name, itoa, at_revision, compare,
}
use old_broker_repo.Mock.Checks.{
  Report, text, report, attempt, observe, must, must_fail, report_if, report_error,
}
use old_broker_repo.Mock.Checks.Map
use old_broker_repo.Mock.Checks.Map.{Visits, check_map_invariant}
use old_broker_repo.Mock.Checks.Map.Samples.{IsCalm}
use old_broker_repo.Mock.Checks.Map.Faults.{Fault, check_map_invariant-reports}
use old_broker_repo.Mock.Checks.Broker.{broker_cases, check_broker_config_types}
use old_broker_repo.Mock.Checks.Broker.Panics.{Misses, check_broker_config_types-panic_iff}

-- Fake messages, and others.
data Spec : Type 0 where
  fake : FakeConfig → Spec
  named : Text → Spec

abbrev same_pairs : List Pair → List Pair → Bool
same_pairs [] [] = true
same_pairs [] (q ∷ qs) = false
same_pairs (p ∷ ps) [] = false
same_pairs (p ∷ ps) (q ∷ qs) = p.key == q.key && (p.value == q.value && same_pairs ps qs)

abbrev same_spec : Spec → Spec → Bool
same_spec (fake a) (fake b) = a.key == b.key && same_pairs a.pairs b.pairs
same_spec (fake a) (named b) = false
same_spec (named a) (fake b) = false
same_spec (named a) (named b) = a == b

abbrev same_labels : Labels → Labels → Bool
same_labels [] [] = true
same_labels [] (q ∷ qs) = false
same_labels (p ∷ ps) [] = false
same_labels ((k, v) ∷ ps) ((k', v') ∷ qs) = k == k' && (v == v' && same_labels ps qs)

abbrev same_key : Entry Spec → Text → Text → Text → Bool
same_key e t n ns = e.type == t && (e.name == n && e.namespace == ns)

abbrev same_entry : Entry Spec → Entry Spec → Bool
same_entry a b =
    same_key a b.type b.name b.namespace
    && (a.resource_version == b.resource_version
        && (same_labels a.labels b.labels
            && (same_labels a.annotations b.annotations && same_spec a.spec b.spec)))

abbrev as_fake : Spec → Option FakeConfig
as_fake (fake m) = some m
as_fake (named n) = none

abbrev fakes : Fakes Spec
fakes = record {
  fake = λ m. fake m;
  as_fake = as_fake;
  nil_message = named [];
  service_class = λ instance_name name id description. named name;
  service_plan = λ name id description services. named name;
  deep_equal = same_entry;
  deep_equal_spec = same_spec;
}

abbrev Memory : Type 0
Memory = List (Entry Spec)

abbrev look_up : Text → Text → Text → Memory → Option (Entry Spec)
look_up t n ns [] = none
look_up t n ns (e ∷ es) = if same_key e t n ns then some e else look_up t n ns es

abbrev without : Text → Text → Text → Memory → Memory
without t n ns [] = []
without t n ns (e ∷ es) =
    let rest = without t n ns es in if same_key e t n ns then rest else e ∷ rest

abbrev of_type : Text → Text → Memory → Memory
of_type t ns [] = []
of_type t ns (e ∷ es) =
    let rest = of_type t ns es in if e.type == t && e.namespace == ns then e ∷ rest else rest

-- A fake message wants a key, and other messages are of the broker's types.
abbrev is_valid : Entry Spec → Bool
is_valid e = elim e.spec [
  | fake m ↦ e.type == codes "fake-config" && not (m.key == [])
  | named n ↦ not (e.type == [] || e.type == codes "fake-config")
]

abbrev refused : {A : Type 0} → Act Memory A
refused es = (err (foreign (codes "refused")), es)

abbrev created : Bool → Option (Entry Spec) → Entry Spec → Act Memory Text
created false o e = refused
created true (some x) e = refused
created true none e = λ es. (ok (codes "1"), at_revision e (codes "1") ∷ es)

abbrev replaced : Bool → Option (Entry Spec) → Entry Spec → Act Memory Text
replaced false o e es = refused es
replaced true none e es = refused es
replaced true (some x) e es =
    let revision = 0 ∷ x.resource_version in
    if x.resource_version == e.resource_version
    then (ok revision, at_revision e revision ∷ without e.type e.name e.namespace es)
    else refused es

abbrev deleted : Option (Entry Spec) → Text → Text → Text → Act Memory (Unit {0})
deleted none t n ns = refused
deleted (some x) t n ns = λ es. (ok tt, without t n ns es)

abbrev memory : Store Memory Spec
memory = record {
  descriptor = fake_config fakes ∷ broker_config_types Spec;
  get = λ t n ns es. (ok (look_up t n ns es), es);
  list = λ t ns es. (ok (of_type t ns es, none), es);
  create = λ e es. created (is_valid e) (look_up e.type e.name e.namespace es) e es;
  update = λ e es. replaced (is_valid e) (look_up e.type e.name e.namespace es) e es;
  delete = λ t n ns es. deleted (look_up t n ns es) t n ns es;
}

abbrev visits : Visits Memory
visits = record { visit = λ m w. (m, w); visit_perm = λ m w. Permᴰ.refl m }

created-ne-panic :
    (b : Bool) (o : Option (Entry Spec)) (e : Entry Spec) (es : Memory)
    → (created b o e es).0 ≢ panic
created-ne-panic false o e es p = cc p
created-ne-panic true (some x) e es p = cc p
created-ne-panic true none e es p = cc p

replaced-ne-panic :
    (b : Bool) (o : Option (Entry Spec)) (e : Entry Spec) (es : Memory)
    → (replaced b o e es).0 ≢ panic
replaced-ne-panic false o e es p = cc p
replaced-ne-panic true none e es p = cc p
replaced-ne-panic true (some x) e es p =
    elim (Bool-cases (x.resource_version == e.resource_version)) [
      | inl b ↦ cc (rw b at p)
      | inr b ↦ cc (rw b at p)
    ]

deleted-ne-panic :
    (o : Option (Entry Spec)) (t n ns : Text) (es : Memory) → (deleted o t n ns es).0 ≢ panic
deleted-ne-panic none t n ns es p = cc p
deleted-ne-panic (some x) t n ns es p = cc p

calm : IsCalm fakes memory
calm = record {
  creates = λ e _ es. created-ne-panic (is_valid e) (look_up e.type e.name e.namespace es) e es;
  updates = λ e _ es. replaced-ne-panic (is_valid e) (look_up e.type e.name e.namespace es) e es;
  deletes = λ t n ns es. deleted-ne-panic (look_up t n ns es) t n ns es;
  gets = λ t n ns es. (look_up t n ns es, es, refl);
  lists = λ t ns es. ((of_type t ns es, none), es, refl);
}

-- The check passes, and leaves the store empty.
run_of_map : check_map_invariant fakes visits memory (codes "ns") 2 ([], []) ≡ (ok tt, ([], []))
unfolding check_map_invariant get_by_type fake_config ◌==◌ Map.visited Map.elements_from
    Map.create_all Map.check_created Map.check_from_revisions Map.check_refusals Map.check_absent
    Map.check_count Map.update_all Map.check_updated Map.delete_all Map.put Map.value_at
    Map.named_entry Map.updated Map.is_kept make make_with fake_name itoa at_revision compare
    attempt observe must must_fail report_if report_error report
run_of_map = refl

-- A store that says of every deletion that it is done.
abbrev agreeable : Store Memory Spec
agreeable = record memory { delete = λ t n ns es. (ok tt, without t n ns es) }

agreeable-IsCalm : IsCalm fakes agreeable
agreeable-IsCalm = record {
  creates = calm.creates;
  updates = calm.updates;
  deletes = λ t n ns es p. cc p;
  gets = calm.gets;
  lists = calm.lists;
}

check_map_invariant-reports_example :
    (w : Memory) × (new : List Report) × (check_map_invariant fakes visits agreeable
        (codes "ns")
        2
        ([], [])
      ≡ (ok tt, (w, [] ++ new)))
    × Memᴰ (text (codes "expected error on deletion of missing type")) new
check_map_invariant-reports_example =
    check_map_invariant-reports fakes visits agreeable agreeable-IsCalm 2 _
      (Fault.deletes (λ t n ns es x p. cc p) _ (Memᴰ.head refl)) (codes "ns") [] []

-- A store that has lost everything before it is read.
abbrev forgetful : Store Memory Spec
forgetful = record memory { get = λ t n ns es. (ok none, []) }

missed : Misses fakes forgetful (codes "ns") (broker_cases fakes (codes "ns")) []
unfolding broker_cases
missed = Misses.now refl

memory-creates : (e : Entry Spec) (es : Memory) → (memory.create e es).0 ≢ panic
memory-creates e es = created-ne-panic (is_valid e) (look_up e.type e.name e.namespace es) e es

check_broker_config_types-panic_iff_example :
    (((check_broker_config_types fakes forgetful (codes "ns") ([], [])).0 ≡ panic)
      ↔ Misses fakes forgetful (codes "ns") (broker_cases fakes (codes "ns")) [])
    × (((check_broker_config_types fakes forgetful (codes "ns") ([], [])).0 ≡ panic)
        ⊎ ((check_broker_config_types fakes forgetful (codes "ns") ([], [])).0 ≡ ok tt))
check_broker_config_types-panic_iff_example =
    check_broker_config_types-panic_iff fakes forgetful (codes "ns") memory-creates
      (λ t n ns es. (none, [], refl)) [] []

-- The check panics at it.
forgotten : (check_broker_config_types fakes forgetful (codes "ns") ([], [])).0 ≡ panic
forgotten =
    (check_broker_config_types-panic_iff fakes forgetful (codes "ns") memory-creates
        (λ t n ns es. (none, [], refl)) [] []).0.1
      missed
