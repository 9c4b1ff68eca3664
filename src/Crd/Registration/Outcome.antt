-- ===== src/Crd/Registration/Outcome.antt =====
-- How a registration ends.
use old_broker_repo.Prelude.{
  Bool, true, Option, none, some, Error, ok, err, panic, Act, append, ◌⊎◌, inl, inr, ◌≡◌, ◌≢◌, ◌↔◌,
  Option-cases, Result-cases, Sum-cases, ap, subst, ◌∙◌, sym,
}
use old_broker_repo.Config.Descriptor.{Descriptor}
use old_broker_repo.Crd.Registration.{
  Extensions, attempt, create_all, check_established, deregister_resources, register_resources,
}
use old_broker_repo.Crd.Registration.Correct.{
  Created, AllEstablished, deleted, deregister-ok, delete_all_lem, deregister_resources_lem,
  create_all_sound, create_all_complete, check_established-cases, check_established_complete,
}

-- What `wait.Poll` documents: it waits, runs the function, and stops when the function is done or
-- returns an error.
pub record PollLaws {W : Type 0} (api : Extensions W) : Type 0 where
  pub tick : W → W
  pub poll_done :
      {condition : Act W Bool} {w w' : W}
      → condition (tick w) ≡ (ok true, w')
      → api.poll condition w ≡ (none, w')
  pub poll_error :
      {condition : Act W Bool} {w w' : W} {e : Error}
      → condition (tick w) ≡ (err e, w')
      → api.poll condition w ≡ (some e, w')

module _ {W Message : Type 0} (api : Extensions W) (laws : PollLaws api) (d : Descriptor Message)
    (w : W) where
  -- The worlds of a registration that succeeds.
  pub record IsRegistered (w' : W) : Type 0 where
    pub w₁ : W
    pub w₂ : W
    pub connected : api.new_for_config w ≡ (inr tt, w₁)
    pub all_created : Created api d w₁ w₂
    pub all_established : AllEstablished api d (laws.tick w₂) w'

  register_complete : (w' : W) → IsRegistered w' → register_resources api d w ≡ (ok tt, w')
  unfolding register_resources
  register_complete w' r =
      let (last, p) = create_all_complete api none r.all_created in
      rw (r.connected, p, laws.poll_done (check_established_complete api r.all_established))

  register_of_failed_poll :
      {w₁ w₂ w₃ : W} {last : Option Error} {e : Error}
      → api.new_for_config w ≡ (inr tt, w₁)
      → create_all api d none w₁ ≡ (ok last, w₂)
      → api.poll (check_established api d) w₂ ≡ (some e, w₃)
      → ((deregister_resources api d w₃).0 ≢ ok tt)
      → ((deregister_resources api d w₃).0 ≢ panic)
      → (x : Error) × (register_resources api d w ≡ (err x, (deregister_resources api d w₃).1))
  unfolding register_resources
  register_of_failed_poll {w₃} {last} p q r n m =
      elim (Result-cases (deregister_resources api d w₃).0) [
        | inl (u, s) ↦ absurd (n s)
        | inr (inl (x, s)) ↦ (append last (some x), rw (p, q, r, attempt, s))
        | inr (inr s) ↦ absurd (m s)
      ]

  deregister-ne-panic : (w₃ : W) → (deregister_resources api d w₃).0 ≢ panic
  unfolding deregister_resources
  deregister-ne-panic w₃ = elim (Sum-cases (api.new_for_config w₃).0) [
    | inl (e, p) ↦ rw p (λ h. cc)
    | inr (u, p) ↦
        let (errs, q, r) = delete_all_lem api d none (api.new_for_config w₃).1 in
        elim (Option-cases errs) [
          | inl s ↦ rw (p, q, s) (λ h. cc)
          | inr (x, s) ↦ rw (p, q, s) (λ h. cc)
        ]
  ]

  -- What follows the creations: every definition is established, or all are deleted.
  register_after :
      {w₁ w₂ : W} {last : Option Error}
      → api.new_for_config w ≡ (inr tt, w₁)
      → create_all api d none w₁ ≡ (ok last, w₂)
      → ((w' : W) × IsRegistered w' × (register_resources api d w ≡ (ok tt, w')))
        ⊎ ((x : Error) × (register_resources api d w
              ≡ (err x, (deregister_resources api d (check_established api d (laws.tick w₂)).1).1)))
  register_after {w₁} {w₂} {last} p q = elim (check_established-cases api d (laws.tick w₂)) [
    | inl (w', r, a) ↦
        let done : IsRegistered w' = record {
          w₁ = w₁;
          w₂ = w₂;
          connected = p;
          all_created = create_all_sound api d none last w₁ w₂ q;
          all_established = a;
        } in
        inl (w', done, register_complete w' done)
    | inr (e, w', r, n) ↦
        let (x, s) =
          register_of_failed_poll p q (laws.poll_error r) (λ h. n (deregister-ok api d w' h))
            (deregister-ne-panic w') in
        inr (x, s ∙ ap (λ v. (err x, (deregister_resources api d v.1).1)) (sym r))
  ]

  register_sound : (w' : W) → register_resources api d w ≡ (ok tt, w') → IsRegistered w'
  unfolding register_resources
  register_sound w' h = elim (Sum-cases (api.new_for_config w).0) [
    | inl (e, p) ↦ cc (rw p at h)
    | inr (u, p) ↦
        let w₁ = (api.new_for_config w).1 in
        elim (Result-cases (create_all api d none w₁).0) [
          | inl (last, q) ↦
              elim (register_after (rw p) (ap (λ r. (r, (create_all api d none w₁).1)) q)) [
                | inl (v, r, s) ↦ subst IsRegistered (ap (λ x. x.1) (sym s ∙ h)) r
                | inr (x, s) ↦ cc (sym s ∙ h)
              ]
          | inr (inl (x, q)) ↦ cc (rw (p, q) at h)
          | inr (inr q) ↦ cc (rw (p, q) at h)
        ]
  ]

  -- Where the poll waits, runs the function it is given and stops when that is done or returns an
  -- error, a registration succeeds exactly if the connection is made, every definition of the
  -- descriptor is created or exists already, in order, and after the wait every definition has a
  -- condition that says that it is established.
  pub register_resources_iff :
      (w' : W) → (register_resources api d w ≡ (ok tt, w')) ↔ IsRegistered w'
  register_resources_iff w' = (register_sound w', register_complete w')

  -- If, with such a poll and connections that are always made, the definitions are created or exist
  -- already, but are not all established after the wait, then the registration fails, and ends
  -- where the deletion of every definition of the descriptor has been asked for, in order, also of
  -- those that existed before.
  pub register_resources-deleted :
      ((v : W) → (api.new_for_config v).0 ≡ inr tt)
      → (w₁ w₂ : W) → api.new_for_config w ≡ (inr tt, w₁)
      → Created api d w₁ w₂
      → (¬ ((w' : W) × AllEstablished api d (laws.tick w₂) w'))
      → (x : Error) × (register_resources api d w ≡ (
        err x,
        deleted api d (api.new_for_config (check_established api d (laws.tick w₂)).1).1,
      ))
  register_resources-deleted connects w₁ w₂ p c n =
      let (last, q) = create_all_complete api none c in
      elim (check_established-cases api d (laws.tick w₂)) [
        | inl (w', r, a) ↦ absurd (n (w', a))
        | inr (e, w', r, m) ↦
            let (x, s) =
              register_of_failed_poll p q (laws.poll_error r) (λ h. m (deregister-ok api d w' h))
                (deregister-ne-panic w') in
            let t =
              (deregister_resources_lem api d w' (api.new_for_config w').1 (rw (connects w'))).0 in
            (
              x,
              s
                  ∙ ap (λ v. (err x, v)) t
                  ∙ ap (λ v. (err x, deleted api d (api.new_for_config v.1).1)) (sym r),
            )
      ]
