-- ===== src/Mock/Checks/Broker/Panics.antt =====
-- The check of the broker's configuration panics at an entry that is not found.
use old_broker_repo.Prelude.{subst}
use old_broker_repo.Prelude.{
  Text, codes, List, [], ◌∷◌, Option, none, some, Result, ok, panic, ◌≡◌, ◌≢◌, ◌↔◌, ◌⊎◌, inl, inr,
  refl, ap, sym, ◌∙◌, Result-cases, Option-cases, Bool-cases, not,
}
use old_broker_repo.Config.Resource.{Entry}
use old_broker_repo.Config.Store.{Store}
use old_broker_repo.Mock.{Fakes}
use old_broker_repo.Mock.Checks.{Report, attempt, observe, must, report, report_if}
use old_broker_repo.Mock.Checks.Broker.{
  broker_cases, check_got, check_case, check_cases, check_broker_config_types,
}

module _ {W Message : Type 0} (fakes : Fakes Message) (store : Store W Message)
    (namespace : Text) where
  -- What is got for an entry, after its creation.
  abbrev pub got_after : Entry Message → W → Result (Option (Entry Message)) × W
  got_after c w = store.get c.type (codes "example") namespace (store.create c w).1

  -- One of the entries is not found when it has been created.
  pub data Misses : List (Entry Message) → W → Type 0 where
    now :
        {c : Entry Message} {cases : List (Entry Message)} {w w' : W}
        → got_after c w ≡ (ok none, w')
        → Misses (c ∷ cases) w
    later :
        {c got : Entry Message} {cases : List (Entry Message)} {w w' : W}
        → got_after c w ≡ (ok (some got), w')
        → Misses cases w'
        → Misses (c ∷ cases) w

  Misses-rest :
      {c got : Entry Message} {cases : List (Entry Message)} {w w' : W}
      → got_after c w ≡ (ok (some got), w')
      → Misses (c ∷ cases) w
      → Misses cases w'
  Misses-rest h (now e) = cc (ap (λ x. x.0) (sym h ∙ e))
  Misses-rest {cases} h (later e m) = subst (Misses cases) (ap (λ x. x.1) (sym e ∙ h)) m

  module _ (creates : (e : Entry Message) (w : W) → (store.create e w).0 ≢ panic)
      (gets : (t n ns : Text) (w : W)
        → (e : Option (Entry Message)) × (w' : W) × (store.get t n ns w ≡ (ok e, w'))) where
    check_case-missed :
        (c : Entry Message) (w w' : W) (reports : List Report)
        → got_after c w ≡ (ok none, w')
        → (check_case fakes store namespace c (w, reports)).0 ≡ panic
    unfolding check_case check_got attempt observe must report report_if
    check_case-missed c w w' reports h = elim (Result-cases (store.create c w).0) [
      | inl (r, p) ↦ rw (p, h) refl
      | inr (inl (x, p)) ↦ rw (p, h) refl
      | inr (inr p) ↦ absurd (creates c w p)
    ]

    check_case-found :
        (c got : Entry Message) (w w' : W) (reports : List Report)
        → got_after c w ≡ (ok (some got), w')
        → ((check_case fakes store namespace c (w, reports)).0 ≡ ok tt)
          × ((check_case fakes store namespace c (w, reports)).1.0 ≡ w')
    unfolding check_case check_got attempt observe must report report_if
    check_case-found c got w w' reports h =
        let differs = Bool-cases (not (fakes.deep_equal_spec got.spec c.spec)) in
        elim (Result-cases (store.create c w).0) [
          | inl (r, p) ↦ elim differs [
            | inl q ↦ rw (p, h, q) (refl, refl)
            | inr q ↦ rw (p, h, q) (refl, refl)
          ]
          | inr (inl (x, p)) ↦ elim differs [
            | inl q ↦ rw (p, h, q) (refl, refl)
            | inr q ↦ rw (p, h, q) (refl, refl)
          ]
          | inr (inr p) ↦ absurd (creates c w p)
        ]

    -- The loop panics, or it ends.
    check_cases-cases :
        (cases : List (Entry Message)) (w : W) (reports : List Report)
        → (Misses cases w × ((check_cases fakes store namespace cases (w, reports)).0 ≡ panic))
          ⊎ ((Misses cases w → ⊥)
              × ((check_cases fakes store namespace cases (w, reports)).0 ≡ ok tt))
    unfolding check_cases
    check_cases-cases [] w reports = inr ((λ m. elim m [ ]), refl)
    check_cases-cases (c ∷ cases) w reports =
        let (found, w', h) = gets c.type (codes "example") namespace (store.create c w).1 in
        elim (Option-cases found) [
          | inl p ↦ inl (
            now (h ∙ ap (λ x. (ok x, w')) p),
            rw (check_case-missed c w w' reports (h ∙ ap (λ x. (ok x, w')) p)) refl,
          )
          | inr (got, p) ↦
              let h' = h ∙ ap (λ x. (ok x, w')) p in
              let (ended, here) = check_case-found c got w w' reports h' in
              let after = check_case fakes store namespace c (w, reports) in
              let rest =
                ap (λ v. (check_cases fakes store namespace cases (v, after.1.1)).0) here in
              elim (check_cases-cases cases w' after.1.1) [
                | inl (m, e) ↦ inl (later h' m, rw ended (rest ∙ e))
                | inr (n, e) ↦ inr ((λ m. n (Misses-rest h' m)), rw ended (rest ∙ e))
              ]
        ]

    -- If the store's creations do not panic and its readings return, then CheckBrokerConfigTypes,
    -- whatever the creations return, panics exactly if one of its two entries is not found after
    -- its creation, the one before it being found, and runs to its end otherwise.
    pub check_broker_config_types-panic_iff :
        (w : W) (reports : List Report)
        → (((check_broker_config_types fakes store namespace (w, reports)).0 ≡ panic)
            ↔ Misses (broker_cases fakes namespace) w)
          × (((check_broker_config_types fakes store namespace (w, reports)).0 ≡ panic)
              ⊎ ((check_broker_config_types fakes store namespace (w, reports)).0 ≡ ok tt))
    unfolding check_broker_config_types
    check_broker_config_types-panic_iff w reports =
        elim (check_cases-cases (broker_cases fakes namespace) w reports) [
          | inl (m, e) ↦ (((λ p. m), λ n. e), inl e)
          | inr (n, e) ↦ (((λ p. cc (sym e ∙ p)), λ m. absurd (n m)), inr e)
        ]
