-- ===== src/Crd/Client/Guards.antt =====
-- Nothing is sent to the server for an entry that its schema does not accept.
use old_broker_repo.Prelude.{
  [], none, some, Result, ok, err, panic, ◌≡◌, ◌≢◌, refl, arith, inl, inr, Option-cases, ◌⊎◌,
  eq_iff,
}
use old_broker_repo.Config.Resource.{Entry}
use old_broker_repo.Config.Codec.{Codec}
use old_broker_repo.Config.Schema.{Schema, validate}
use old_broker_repo.Config.Schema.Validation.{IsAcceptable, validate_iff}
use old_broker_repo.Config.Descriptor.{get_by_type}
use old_broker_repo.Crd.Client.{Client, create, update}

-- The call failed and the server was not asked.
abbrev pub IsRefused : {W A : Type 0} → W → Result A × W → Type 0
IsRefused {A} w (r, w') = (w' ≡ w) × ((a : A) → r ≢ ok a)

module _ {W Message : Type 0} (c : Codec Message) (nil_map : c.Value)
    (cl : Client W Message c.Value) (e : Entry Message) (w : W) where
  create_unfound : get_by_type cl.descriptor e.type ≡ none → IsRefused w (create c nil_map cl e w)
  unfolding create
  create_unfound h = ground arith

  create_invalid :
      (s : Schema Message) (v : Result (Unit {0}))
      → get_by_type cl.descriptor e.type ≡ some s
      → validate c s e.spec ≡ v
      → v ≢ ok tt
      → IsRefused w (create c nil_map cl e w)
  unfolding create
  create_invalid s (ok u) h p q = absurd (q refl)
  create_invalid s (err x) h p q = ground arith
  create_invalid s panic h p q = ground arith

  -- An entry whose type the descriptor does not have, or whose schema does not accept its message,
  -- is not created: the call returns no revision and the server is not asked.
  pub create_refuses :
      ((s : Schema Message) → get_by_type cl.descriptor e.type ≡ some s → ¬ IsAcceptable c s e.spec)
      → IsRefused w (create c nil_map cl e w)
  create_refuses h = elim (Option-cases (get_by_type cl.descriptor e.type)) [
    | inl p ↦ create_unfound p
    | inr (s, p) ↦
        create_invalid s (validate c s e.spec) p refl (λ q. h s p ((validate_iff c s e.spec).0 q))
  ]

  update_unfound : get_by_type cl.descriptor e.type ≡ none → IsRefused w (update c nil_map cl e w)
  unfolding update
  update_unfound h = ground arith

  update_invalid :
      (s : Schema Message) (v : Result (Unit {0}))
      → get_by_type cl.descriptor e.type ≡ some s
      → validate c s e.spec ≡ v
      → (v ≢ ok tt) ⊎ (e.resource_version ≡ [])
      → IsRefused w (update c nil_map cl e w)
  unfolding update
  update_invalid s (ok u) h p (inl q) = absurd (q refl)
  update_invalid s (ok u) h p (inr q) = ground (arith, eq_iff e.resource_version [])
  update_invalid s (err x) h p q = ground arith
  update_invalid s panic h p q = ground arith

  -- An entry whose type the descriptor does not have, or whose schema does not accept its message,
  -- or which has no revision, is not updated: the call returns no revision and the server is not
  -- asked.
  pub update_refuses :
      ((s : Schema Message)
        → get_by_type cl.descriptor e.type ≡ some s
        → (¬ IsAcceptable c s e.spec) ⊎ (e.resource_version ≡ []))
      → IsRefused w (update c nil_map cl e w)
  update_refuses h = elim (Option-cases (get_by_type cl.descriptor e.type)) [
    | inl p ↦ update_unfound p
    | inr (s, p) ↦ elim (h s p) [
      | inl q ↦
          update_invalid s (validate c s e.spec) p refl
            (inl (λ r. q ((validate_iff c s e.spec).0 r)))
      | inr q ↦ update_invalid s (validate c s e.spec) p refl (inr q)
    ]
  ]
