-- ===== src/Testing/Pods/Budget.antt =====
-- The wait for the pods ends.
use old_broker_repo.Prelude.{
  ℕ, zero, suc, ◌+◌, ◌≤◌, Text, codes, List, [], ◌∷◌, true, false, none, some, Error, errorf, ◌⊎◌,
  inl, inr, ◌≡◌, ◌≢◌, arith, Sum-cases, Bool-cases, ltb, ap, subst,
}
use old_broker_repo.Prelude.Dict.{Dict}
use old_broker_repo.Testing.Pods.{
  Pod, Cluster, pods_ready, add_pods, await_pods, get_app_pods_from, get_app_pods, pod_check_budget,
}

-- Before round 91 the loop goes on, and at round 91 it stops.
at_budget :
    (n : ℕ)
    → n ≤ 91
    → ((n + 1 ≤ 91) × (ltb pod_check_budget n ≡ false))
      ⊎ ((91 ≡ n + 0) × (ltb pod_check_budget n ≡ true))
at_budget n p = ground arith

module _ {W : Type 0} (cl : Cluster W) where
  -- Rounds in which the pods of the namespace are not ready, with a sleep after each.
  pub data Waited (ns : Text) : ℕ → W → W → Type 0 where
    start : {w : W} → Waited ns 0 w w
    round :
        {k : ℕ} {w w₁ w₂ : W} {items : List Pod}
        → cl.pods ns w ≡ (inr items, w₁)
        → pods_ready items ≡ false
        → Waited ns k (cl.sleep w₁) w₂
        → Waited ns (suc k) w w₂

  -- The end of a wait: after `k` rounds the server fails, or the pods are ready, or it is round 91 and
  -- they are not.
  pub data Ends (ns : Text) : ℕ → W → Error ⊎ List Pod → W → Type 0 where
    failed : {k : ℕ} {w w' : W} {e : Error} → cl.pods ns w ≡ (inl e, w') → Ends ns k w (inl e) w'
    ready :
        {k : ℕ} {w w' : W} {items : List Pod}
        → cl.pods ns w ≡ (inr items, w')
        → pods_ready items ≡ true
        → Ends ns k w (inr items) w'
    exceeded :
        {w w' : W} {items : List Pod}
        → cl.pods ns w ≡ (inr items, w')
        → pods_ready items ≡ false
        → Ends ns 91 w (inl (errorf (codes "exceeded budget for checking pod status") [])) w'

  await_from :
      (fuel : ℕ) (ns : Text) (n : ℕ) (w : W)
      → n ≤ 91
      → 92 ≤ n + fuel
      → (r : Error ⊎ List Pod) × (w' v : W) × (k : ℕ) × (await_pods cl fuel ns n w ≡ (some r, w'))
        × Waited ns k w v
        × Ends ns (n + k) v r w'
        × (n + k ≤ 91)
  unfolding await_pods
  await_from zero ns n w p q = absurd (omega arith)
  await_from (suc fuel) ns n w p q =
      let w₁ = (cl.pods ns w).1 in
      elim (Sum-cases (cl.pods ns w).0) [
        | inl (e, h) ↦
            (inl e, w₁, w, 0, rw (await_pods, h), start, failed (ap (λ x. (x, w₁)) h), omega arith)
        | inr (items, h) ↦
            let listed : cl.pods ns w ≡ (inr items, w₁) = ap (λ x. (x, w₁)) h in
            elim (Bool-cases (pods_ready items)) [
              | inl r ↦
                  (inr items, w₁, w, 0, rw (await_pods, h, r), start, ready listed r, omega arith)
              | inr r ↦ elim (at_budget n p) [
                | inl (l, t) ↦
                    let (x, w', v, k, a, b, d, u) =
                      await_from fuel ns (n + 1) (cl.sleep w₁) l (omega arith) in
                    let same : n + 1 + k ≡ n + suc k = omega arith in
                    (
                      x,
                      w',
                      v,
                      suc k,
                      rw (await_pods, h, r, t) a,
                      round listed r b,
                      subst (λ m. Ends ns m v x w') same d,
                      omega arith,
                    )
                | inr (l, t) ↦ (
                  inl (errorf (codes "exceeded budget for checking pod status") []),
                  w₁,
                  w,
                  0,
                  rw (await_pods, h, r, t),
                  start,
                  subst
                      (λ m.
                        Ends ns m w
                          (inl (errorf (codes "exceeded budget for checking pod status") [])) w₁)
                      l (exceeded listed r),
                  omega arith,
                )
              ]
            ]
      ]

  -- The wait for the pods of a namespace ends on the fuel 92: after at most 91 rounds in which the
  -- pods were not ready, each with a sleep, the server fails and its error is returned, or the pods
  -- are ready and returned, or it is round 91, the pods are still not ready, and the budget is
  -- exceeded.
  pub await_pods-Ends :
      (ns : Text) (w : W)
      → (r : Error ⊎ List Pod) × (w' v : W) × (k : ℕ) × (await_pods cl 92 ns 0 w ≡ (some r, w'))
        × Waited ns k w v
        × Ends ns k v r w'
        × (k ≤ 91)
  await_pods-Ends ns w =
      let (r, w', v, k, a, b, d, p) = await_from 92 ns 0 w (omega arith) (omega arith) in
      let same : 0 + k ≡ k = omega arith in
      (r, w', v, k, a, b, subst (λ m. Ends ns m v r w') same d, omega arith)

  get_app_pods_from_total :
      (nslist : List Text) (pods : Dict (List Text)) (w : W)
      → (get_app_pods_from cl nslist pods w).0 ≢ none
  unfolding get_app_pods_from
  get_app_pods_from_total [] pods w = cc
  get_app_pods_from_total (ns ∷ nslist) pods w =
      let (r, w', v, k, a, b, d, p) = await_pods-Ends ns w in
      elim (Sum-cases r) [
        | inl (e, h) ↦ rw (get_app_pods_from, a, h) (λ q. cc)
        | inr (items, h) ↦
            rw (get_app_pods_from, a, h)
              (get_app_pods_from_total nslist (add_pods items pods) (await_pods cl 92 ns 0 w).1)
      ]

  -- The pods of any list of namespaces are got, or an error is, without using up the fuel, whatever
  -- the cluster answers.
  get_app_pods-ne-none : (nslist : List Text) (w : W) → (get_app_pods cl nslist w).0 ≢ none
  unfolding get_app_pods
  get_app_pods-ne-none nslist w = get_app_pods_from_total nslist [] w
