-- ===== src/Crd/Registration/Correct.antt =====
-- What registering and deregistering do to the server.
use old_broker_repo.Prelude.{
  List, [], ◌∷◌, true, Option, none, some, Error, ok, err, append, ◌⊎◌, inl, inr, ◌≡◌, ◌≢◌, ◌↔◌,
  refl, arith, Option-cases, Bool-cases, Sum-cases, ap, subst, ◌∙◌, codes, errorf,
}
use old_broker_repo.Config.Schema.{Schema}
use old_broker_repo.Config.Descriptor.{Descriptor}
use old_broker_repo.Crd.Registration.{
  Extensions, Condition, name_of, definition_of, inspect, is_established, pending, create_all,
  check_established, delete_all, deregister_resources,
}
use old_broker_repo.Crd.Registration.Conditions.{IsEstablished, inspect_iff, Inspected-cases}

module _ {W Message : Type 0} (api : Extensions W) where
  -- Every definition of the descriptor is created, or is there already.
  pub data Created : Descriptor Message → W → W → Type 0 where
    done : {w : W} → Created [] w w
    created :
        {s : _} {d : Descriptor Message} {w w₁ w₂ : W}
        → api.create (definition_of s) w ≡ (none, w₁)
        → Created d w₁ w₂
        → Created (s ∷ d) w w₂
    exists :
        {s : _} {d : Descriptor Message} {w w₁ w₂ : W} {x : Error}
        → api.create (definition_of s) w ≡ (some x, w₁)
        → api.is_already_exists x ≡ true
        → Created d w₁ w₂
        → Created (s ∷ d) w w₂

  -- Every definition of the descriptor has a condition that says that it is established.
  pub data AllEstablished : Descriptor Message → W → W → Type 0 where
    done : {w : W} → AllEstablished [] w w
    next :
        {s : _} {d : Descriptor Message} {w w₁ w₂ : W} {conds : List Condition}
        → api.get (name_of s) w ≡ (inr conds, w₁)
        → IsEstablished conds
        → AllEstablished d w₁ w₂
        → AllEstablished (s ∷ d) w w₂

  -- The world after the deletion of every definition has been asked for, in order.
  pub deleted : Descriptor Message → W → W
  deleted [] w = w
  deleted (s ∷ d) w = deleted d (api.delete (name_of s) w).1

  pub delete_all_lem :
      (d : Descriptor Message) (errs : Option Error) (w : W)
      → (errs' : Option Error) × (delete_all api d errs w ≡ (ok errs', deleted d w))
        × ((errs' ≡ none) ↔ ((errs ≡ none) × (d ≡ [])))
  unfolding delete_all deleted
  delete_all_lem [] errs w = (errs, refl, ground arith)
  delete_all_lem (s ∷ d) errs w =
      let (e, w₁) = api.delete (name_of s) w in
      let (errs', p, q) = delete_all_lem d (some (append errs e)) w₁ in (errs', p, ground arith)

  -- If the connection is made, deregistering asks for the deletion of every definition of the
  -- descriptor, in order and whatever each deletion answers, and it returns no error exactly if the
  -- descriptor is empty, since an error is put together even of successful deletions.
  pub deregister_resources_lem :
      (d : Descriptor Message) (w w₁ : W)
      → api.new_for_config w ≡ (inr tt, w₁)
      → ((deregister_resources api d w).1 ≡ deleted d w₁)
        × (((deregister_resources api d w).0 ≡ ok tt) ↔ (d ≡ []))
  unfolding deregister_resources
  deregister_resources_lem d w w₁ h =
      let (errs, p, q) = delete_all_lem d none w₁ in
      elim (Option-cases errs) [
        | inl r ↦ rw (h, p, r) (ground arith)
        | inr (x, r) ↦ rw (h, p, r) (ground arith)
      ]

  pub deregister-ok :
      (d : Descriptor Message) (w : W) → (deregister_resources api d w).0 ≡ ok tt → d ≡ []
  unfolding deregister_resources
  deregister-ok d w h = elim (Sum-cases (api.new_for_config w).0) [
    | inl (e, p) ↦ cc (rw p at h)
    | inr (u, p) ↦ (deregister_resources_lem d w (api.new_for_config w).1 (rw p)).1.0 h
  ]

  pub create_all_sound :
      (d : Descriptor Message) (last last' : Option Error) (w w₂ : W)
      → create_all api d last w ≡ (ok last', w₂)
      → Created d w w₂
  unfolding create_all
  create_all_sound [] last last' w w₂ h = subst (λ x. Created [] w x) (ap (λ p. p.1) h) done
  create_all_sound (s ∷ d) last last' w w₂ h =
      let (e, w₁) = api.create (definition_of s) w in
      elim (Option-cases e) [
        | inl p ↦ created (rw p) (create_all_sound d none last' w₁ w₂ (rw p at h))
        | inr (x, p) ↦ elim (Bool-cases (api.is_already_exists x)) [
          | inl q ↦
              exists (rw p) q (create_all_sound d (some x) last' w₁ w₂ (rw (p, create_all, q) at h))
          | inr q ↦ cc (rw (p, create_all, q) at h)
        ]
      ]

  pub create_all_complete :
      {d : Descriptor Message} {w w₂ : W} (last : Option Error)
      → Created d w w₂
      → (last' : Option Error) × (create_all api d last w ≡ (ok last', w₂))
  unfolding create_all
  create_all_complete last done = (last, refl)
  create_all_complete last (created p c) = rw p (create_all_complete none c)
  create_all_complete last (exists {x} p q c) =
      rw (p, create_all, q) (create_all_complete (some x) c)

  -- One definition that is established, and one that is not.
  check_established-next :
      (s : Schema Message) (d : Descriptor Message) (w w₁ : W) (conds : List Condition)
      → api.get (name_of s) w ≡ (inr conds, w₁)
      → inspect conds none ≡ is_established
      → check_established api (s ∷ d) w ≡ check_established api d w₁
  unfolding check_established
  check_established-next s d w w₁ conds p q = ground arith

  check_established-pending :
      (s : Schema Message) (d : Descriptor Message) (w w₁ : W) (conds : List Condition)
      (errs : Option Error)
      → api.get (name_of s) w ≡ (inr conds, w₁)
      → inspect conds none ≡ pending errs
      → (e : Error) × (check_established api (s ∷ d) w ≡ (err e, w₁))
  unfolding check_established
  check_established-pending s d w w₁ conds errs p q = (
    append errs (some (errorf (codes "missing status condition for %q") (name_of s ∷ []))),
    ground arith,
  )

  -- The polled function says that it is done, and then every definition is established, or it
  -- returns an error, and then the descriptor is not empty; it never asks for another try.
  pub check_established-cases :
      (d : Descriptor Message) (w : W)
      → ((w' : W) × (check_established api d w ≡ (ok true, w')) × AllEstablished d w w')
        ⊎ ((e : Error) × (w' : W) × (check_established api d w ≡ (err e, w')) × (d ≢ []))
  unfolding check_established
  check_established-cases [] w = inl (w, refl, done)
  check_established-cases (s ∷ d) w =
      let (a, w₁) = api.get (name_of s) w in
      elim (Sum-cases a) [
        | inl (e, p) ↦ inr (e, w₁, rw p, λ q. cc)
        | inr (conds, p) ↦ elim (Inspected-cases (inspect conds none)) [
          | inl q ↦ elim (check_established-cases d w₁) [
            | inl (w', r, a) ↦ inl (
              w',
              check_established-next s d w w₁ conds (rw p) q ∙ r,
              next (rw p) ((inspect_iff conds none).0 q) a,
            )
            | inr (e, w', r, n) ↦
                inr (e, w', check_established-next s d w w₁ conds (rw p) q ∙ r, λ q. cc)
          ]
          | inr (errs, q) ↦
              let (e, r) = check_established-pending s d w w₁ conds errs (rw p) q in
              inr (e, w₁, r, λ q. cc)
        ]
      ]

  pub check_established_complete :
      {d : Descriptor Message} {w w' : W}
      → AllEstablished d w w'
      → check_established api d w ≡ (ok true, w')
  unfolding check_established
  check_established_complete done = refl
  check_established_complete (next {s} {d} {w} {w₁} {w₂} {conds} p e a) =
      check_established-next s d w w₁ conds p ((inspect_iff conds none).1 e)
      ∙ check_established_complete a
