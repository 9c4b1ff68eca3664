-- ===== src/Tests/Pods.antt =====
-- The wait for pods at concrete inputs.
use old_broker_repo.Prelude.{
  ℕ, Bool, ◌+◌, suc, ◌≤◌, codes, List, [], ◌∷◌, true, none, some, Error, ◌⊎◌, inr, ◌≡◌, refl, arith,
  ltb, ◌==◌, if◌then◌else◌,
}
use old_broker_repo.Prelude.Dict.{lookup, insert}
use old_broker_repo.Testing.Pods.{Pod, Cluster, names_at, await_pods, pods_ready, get_app_pods}
use old_broker_repo.Testing.Pods.Budget.{Waited, start, round, Ends, await_pods-Ends}
use old_broker_repo.Testing.Pods.Live.{await_pods-live}

abbrev running : Pod
running = record {
  name = codes "a-1";
  phase = codes "Running";
  containers = true ∷ [];
  app = some (codes "a");
}

abbrev starting : Pod
starting = record running { phase = codes "Pending" }

-- A cluster whose pod runs after two seconds.
abbrev cluster : Cluster ℕ
cluster = record {
  pods = λ ns w. if ltb w 2 then (inr (starting ∷ []), w) else (inr (running ∷ []), w);
  create_namespace = λ prefix w. (inr prefix, w);
  delete_namespace = λ ns w. (none, w);
  sleep = suc;
  logs = λ ns name container w. (inr [], w);
}

names_run :
    elim (get_app_pods cluster (codes "ns" ∷ []) 0).0 [
      | none ↦ []
      | some (pods, e) ↦ names_at (lookup (codes "a") pods)
    ]
    ≡ codes "a-1" ∷ []
unfolding get_app_pods lookup insert ◌==◌
names_run = refl

await_pods-Ends_example :
    (r : Error ⊎ List Pod) × (w v k : ℕ) × (await_pods cluster 92 (codes "ns") 0 0 ≡ (some r, w))
    × Waited cluster (codes "ns") k 0 v
    × Ends cluster (codes "ns") k v r w
    × (k ≤ 91)
await_pods-Ends_example = await_pods-Ends cluster (codes "ns") 0

waited : Waited cluster (codes "ns") 2 0 2
unfolding pods_ready ◌==◌
waited = round refl refl (round refl refl start)

all_ready : pods_ready (running ∷ []) ≡ true
unfolding pods_ready ◌==◌
all_ready = refl

await_pods-live_example : await_pods cluster 92 (codes "ns") 0 0 ≡ (some (inr (running ∷ [])), 2)
await_pods-live_example =
    await_pods-live cluster (codes "ns") 2 (running ∷ []) all_ready 2 0 2 waited (omega arith) refl

-- The predicate holds once more than 100 milliseconds are over.
abbrev tried : ℕ → Bool × ℕ
tried w = (ltb 100 w, w)

abbrev pause : ℕ → ℕ → ℕ
pause interval w = w + interval
