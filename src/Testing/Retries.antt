-- ===== src/Testing/Retries.antt =====
-- pkg/testing/util/kubernetes.go: a predicate that is tried until it holds.
use old_broker_repo.Prelude.{
  ℕ, zero, suc, ◌*◌, ◌<◌, Bool, true, false, if◌then◌else◌, ◌≡◌, inl, inr, refl, arith, Bool-cases,
  ap,
}

module _ {W : Type 0} (f : W → Bool × W) (sleep : ℕ → W → W) where
  -- The tries that are left, and the interval in milliseconds; whether the predicate held in the end,
  -- where `t.Errorf` is called if it did not.
  unfoldable pub eventually_from : ℕ → ℕ → W → Bool × W
  eventually_from zero interval w = (false, w)
  eventually_from (suc left) interval w =
      let (holds, w') = f w in
      let rest = eventually_from left (2 * interval) (sleep interval w') in
      if holds then (true, w') else rest

  unfoldable pub eventually : W → Bool × W
  unfolding eventually_from
  eventually w = eventually_from 10 64 w

  -- Tries at which the predicate does not hold, each with a sleep, twice as long as the last one.
  pub data Failed : ℕ → ℕ → W → W → Type 0 where
    start : {interval : ℕ} {w : W} → Failed 0 interval w w
    try :
        {k interval : ℕ} {w w₁ w₂ : W}
        → f w ≡ (false, w₁)
        → Failed k (2 * interval) (sleep interval w₁) w₂
        → Failed (suc k) interval w w₂

  -- The end: the predicate holds at one of the tries, or none is left.
  pub data Outcome (left k : ℕ) (v : W) : Bool × W → Type 0 where
    held : {w : W} → k < left → f v ≡ (true, w) → Outcome left k v (true, w)
    given_up : k ≡ left → Outcome left k v (false, v)

  suc-Outcome :
      (left k : ℕ) (v : W) (r : Bool × W) → Outcome left k v r → Outcome (suc left) (suc k) v r
  suc-Outcome left k v r (held p e) = held (omega arith) e
  suc-Outcome left k v r (given_up p) = given_up (omega arith)

  eventually_from-Outcome :
      (left interval : ℕ) (w : W)
      → (k : ℕ) × (v : W) × Failed k interval w v
        × Outcome left k v (eventually_from left interval w)
  unfolding eventually_from
  eventually_from-Outcome zero interval w = (0, w, start, given_up refl)
  eventually_from-Outcome (suc left) interval w =
      let w₁ = (f w).1 in
      elim (Bool-cases (f w).0) [
        | inl p ↦ (0, w, start, rw (eventually_from, p) (held (omega arith) (ap (λ b. (b, w₁)) p)))
        | inr p ↦
            let (k, v, d, o) = eventually_from-Outcome left (2 * interval) (sleep interval w₁) in
            (
              suc k,
              v,
              try (ap (λ b. (b, w₁)) p) d,
              rw (eventually_from, p) (suc-Outcome left k v _ o),
            )
      ]

  -- Eventually ends after at most ten tries of the predicate: after each at which it does not hold
  -- there is a sleep, of 64 milliseconds and then twice as long each time; it says that the
  -- predicate held exactly if it held at one of the ten tries, and nothing is tried after that.
  eventually-Outcome : (w : W) → (k : ℕ) × (v : W) × Failed k 64 w v × Outcome 10 k v (eventually w)
  unfolding eventually
  eventually-Outcome w = eventually_from-Outcome 10 64 w
