-- ===== src/Testing/Pods.antt =====
-- pkg/testing/util/kubernetes.go: the pods of a cluster, and the wait until they run.
pub mod Budget
pub mod Live
pub mod Apps
use old_broker_repo.Prelude.{
  ℕ, zero, suc, ◌+◌, Text, codes, List, [], ◌∷◌, ◌++◌, map, Bool, true, false, Option, none, some,
  Error, errorf, ◌⊎◌, inl, inr, ◌==◌, if◌then◌else◌, ltb, ◌||◌, Act, Result, ok, err, ◌&&◌,
}
use old_broker_repo.Prelude.Calls.{call}
use old_broker_repo.Prelude.Dict.{Dict, lookup, insert}

abbrev pub pod_check_budget : ℕ
pod_check_budget = 90

-- What is read of `v1.Pod`; `app` is the label of this name, and `containers` says of each container
-- whether it is ready.
pub record Pod : Type 0 where
  pub name : Text
  pub phase : Text
  pub containers : List Bool
  pub app : Option Text

-- The calls: the pods of a namespace, a namespace's creation by a prefix, its deletion, the sleep of a
-- second, and the log of a pod's container, by namespace, pod and container.
pub record Cluster (W : Type 0) : Type 0 where
  pub pods : Text → W → (Error ⊎ List Pod) × W
  pub create_namespace : Text → W → (Error ⊎ Text) × W
  pub delete_namespace : Text → W → Option Error × W
  pub sleep : W → W
  pub logs : Text → Text → Text → W → (Error ⊎ Text) × W

-- The loop over the containers of a pod.
unfoldable containers_ready : List Bool → Bool
containers_ready [] = true
containers_ready (ready ∷ containers) = if ready then containers_ready containers else false

-- The loop over the pods, which breaks at the first that is not ready.
unfoldable pub pods_ready : List Pod → Bool
unfolding containers_ready
pods_ready [] = true
pods_ready (pod ∷ items) =
    if pod.phase == codes "Running"
    then (if containers_ready pod.containers then pods_ready items else false)
    else false

-- `pods[app]`, with nil for a missing key.
abbrev pub names_at : Option (List Text) → List Text
names_at none = []
names_at (some names) = names

-- `if app, exists := pod.Labels["app"]; exists { pods[app] = append(pods[app], pod.Name) }`
unfoldable pub add_pods : List Pod → Dict (List Text) → Dict (List Text)
add_pods [] pods = pods
add_pods (pod ∷ items) pods = add_pods items (elim pod.app [
  | none ↦ pods
  | some app ↦ insert app (names_at (lookup app pods) ++ pod.name ∷ []) pods
])

module _ {W : Type 0} (cl : Cluster W) where
  -- The rounds of one namespace, from round `n` on: the pods, or the error that is returned. The loop
  -- has no bound of its own, so it runs on fuel, and `none` says that the fuel is used up.
  unfoldable pub await_pods : ℕ → Text → ℕ → W → Option (Error ⊎ List Pod) × W
  unfolding pods_ready
  await_pods zero ns n w = (none, w)
  await_pods (suc fuel) ns n w =
      let (listed, w') = cl.pods ns w in
      elim listed [
        | inl e ↦ (some (inl e), w')
        | inr items ↦
            let rest = await_pods fuel ns (n + 1) (cl.sleep w') in
            if pods_ready items
            then (some (inr items), w')
            else if ltb pod_check_budget n
            then (some (inl (errorf (codes "exceeded budget for checking pod status") [])), w')
            else rest
      ]

  -- Enough for every wait: rounds 0 to 91.
  abbrev pub fuel : ℕ
  fuel = 92

  unfoldable pub get_app_pods_from :
      List Text → Dict (List Text) → W → Option (Dict (List Text) × Option Error) × W
  unfolding await_pods add_pods
  get_app_pods_from [] pods w = (some (pods, none), w)
  get_app_pods_from (ns ∷ nslist) pods w =
      let (awaited, w') = await_pods fuel ns 0 w in
      elim awaited [
        | none ↦ (none, w')
        | some (inl e) ↦ (some (pods, some e), w')
        | some (inr items) ↦ get_app_pods_from nslist (add_pods items pods) w'
      ]

  unfoldable pub get_app_pods : List Text → W → Option (Dict (List Text) × Option Error) × W
  unfolding get_app_pods_from
  get_app_pods nslist w = get_app_pods_from nslist [] w

  unfoldable pub get_pods : Text → W → List Text × W
  get_pods ns w =
      let (listed, w') = cl.pods ns w in
      elim listed [ inl e ↦ ([], w') | inr items ↦ (map (λ pod. pod.name) items, w') ]

  unfoldable pub create_namespace : Act W Text
  create_namespace = call (cl.create_namespace (codes "istio-test-"))

  unfoldable pub delete_namespace : Text → W → W
  delete_namespace ns w =
      if ns == [] || ns == codes "default" then w else (cl.delete_namespace ns w).1

  unfoldable pub fetch_logs : Text → Text → Text → W → Text × W
  fetch_logs name namespace container w =
      let (raw, w') = cl.logs namespace name container w in
      elim raw [ inl e ↦ ([], w') | inr text ↦ (text, w') ]
