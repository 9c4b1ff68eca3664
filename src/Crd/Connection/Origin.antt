-- ===== src/Crd/Connection/Origin.antt =====
-- Where a client's configuration comes from, and what every client satisfies.
use old_broker_repo.Prelude.{
  Text, [], Error, ok, err, panic, ◌∷◌, Option-cases, ◌≡◌, ◌≢◌, ◌↔◌, ◌⊎◌, inl, inr, arith, eq_iff,
  Result-cases, subst, sym,
}
use old_broker_repo.Config.Descriptor.{Descriptor}
use old_broker_repo.Crd.Objects.{known_types}
use old_broker_repo.Crd.Client.{Client, check_types}
use old_broker_repo.Crd.Client.Total.{AreKnown, check_types_iff}
use old_broker_repo.Crd.Connection.{Setup, resolve_config, new_client}

module _ {W Value : Type 0} (setup : Setup W Value) where
  -- The configuration of the cluster that the broker runs in is chosen exactly if the path is
  -- empty, and then no file is looked at, or if the path is not empty and names a file of size
  -- zero.
  resolve_config_iff :
      (kubeconfig : Text) (w w' : W)
      → (resolve_config setup kubeconfig w ≡ (ok [], w')) ↔ (
          ((kubeconfig ≡ []) × (w ≡ w'))
          ⊎ ((kubeconfig ≢ []) × (setup.stat kubeconfig w ≡ (inr 0, w'))))
  unfolding resolve_config
  resolve_config_iff kubeconfig w w' = ground (arith, eq_iff kubeconfig [])

  module _ {Message : Type 0} (config : Text) (d : Descriptor Message) (w w' : W) where
    -- A client that NewClient returns has the descriptor that NewClient was given, and every type
    -- of it is known.
    pub new_client-AreKnown :
        (cl : Client W Message Value)
        → new_client setup config d w ≡ (ok cl, w')
        → (cl.descriptor ≡ d) × AreKnown Value cl.descriptor
    unfolding new_client
    new_client-AreKnown cl h =
        let p : cl.descriptor ≡ d = ground arith in
        let q : check_types Value d ≡ ok tt = ground arith in
        (p, subst (λ x. AreKnown Value x) (sym p) ((check_types_iff Value d).0 q))

    check_types-ne-panic : (d' : Descriptor Message) → check_types Value d' ≢ panic
    unfolding check_types
    check_types-ne-panic [] = λ h. cc
    check_types-ne-panic (s ∷ d') = elim (Option-cases (known_types {Value = Value} s.type)) [
      | inl p ↦ rw (p, check_types) (λ h. cc)
      | inr (k, p) ↦ rw (p, check_types) (check_types-ne-panic d')
    ]

    -- If a type of the descriptor is not known, NewClient returns an error, and nothing outside is
    -- read or asked.
    new_client_refuses :
        (¬ AreKnown Value d) → (x : Error) × (new_client setup config d w ≡ (err x, w))
    unfolding new_client
    new_client_refuses n = elim (Result-cases (check_types Value d)) [
      | inl (u, p) ↦ absurd (n ((check_types_iff Value d).0 p))
      | inr (inl (x, p)) ↦ (x, rw p)
      | inr (inr p) ↦ absurd (check_types-ne-panic d p)
    ]
