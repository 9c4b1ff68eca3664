-- ===== src/Testing/Pods/Live.antt =====
-- Pods that become ready in time are returned.
use old_broker_repo.Prelude.{
  ℕ, zero, suc, ◌+◌, ◌≤◌, ◌<◌, Text, List, true, false, some, inr, ◌≡◌, arith, ltb, ap, subst, sym,
}
use old_broker_repo.Testing.Pods.{Pod, Cluster, pods_ready, await_pods, pod_check_budget}
use old_broker_repo.Testing.Pods.Budget.{Waited, start, round}

module _ {W : Type 0} (cl : Cluster W) (ns : Text) (w' : W) (items : List Pod)
    (ready : pods_ready items ≡ true) where
  await_pods-ready :
      (fuel n k : ℕ) (w v : W)
      → Waited cl ns k w v
      → cl.pods ns v ≡ (inr items, w')
      → k < fuel
      → n + k ≤ 91
      → await_pods cl fuel ns n w ≡ (some (inr items), w')
  unfolding await_pods
  await_pods-ready zero n k w v d h p q = absurd (omega arith)
  await_pods-ready (suc fuel) n zero w v start h p q =
      rw (await_pods, ap (λ x. x.0) h, ready) (ap (λ x. (some (inr items), x.1)) h)
  await_pods-ready (suc fuel) n (suc k) w v (round {w₁} e r d) h p q =
      let below : ltb pod_check_budget n ≡ false = ground arith in
      let ih = await_pods-ready fuel (n + 1) k (cl.sleep w₁) v d h (omega arith) (omega arith) in
      rw (await_pods, ap (λ x. x.0) e, r, below)
        (subst (λ x. await_pods cl fuel ns (n + 1) (cl.sleep x.1) ≡ (some (inr items), w')) (sym e)
          ih)

  -- If the pods of a namespace are listed and not ready for at most 91 rounds, with a sleep after
  -- each, and are then listed and ready, the wait for them returns the ready pods.
  pub await_pods-live :
      (k : ℕ) (w v : W)
      → Waited cl ns k w v
      → k ≤ 91
      → cl.pods ns v ≡ (inr items, w')
      → await_pods cl 92 ns 0 w ≡ (some (inr items), w')
  await_pods-live k w v d p h = await_pods-ready 92 0 k w v d h (omega arith) (omega arith)
