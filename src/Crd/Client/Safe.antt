-- ===== src/Crd/Client/Safe.antt =====
-- The operations on single objects do not panic.
use old_broker_repo.Prelude.{
  Text, Option, none, some, Error, ok, panic, ◌≡◌, ◌≢◌, arith, inl, inr, Option-cases, subst,
}
use old_broker_repo.Config.Resource.{Entry}
use old_broker_repo.Config.Codec.{Codec}
use old_broker_repo.Config.Schema.{Schema, run_additional}
use old_broker_repo.Config.Descriptor.{get_by_type}
use old_broker_repo.Crd.Objects.{IstioKind, new_object}
use old_broker_repo.Crd.Objects.Copies.{new_object_known}
use old_broker_repo.Crd.Client.{Client, plural_of, revision_of, got, get, create, update, delete}
use old_broker_repo.Crd.Client.Sends.{create-cases, update-cases}
use old_broker_repo.Crd.Client.Total.{AreKnown, known_of_found, convert_object-ne-panic}

module _ {W Message : Type 0} (c : Codec Message) (nil_map : c.Value)
    (cl : Client W Message c.Value) (known : AreKnown c.Value cl.descriptor)
    (checks : (typ : Text) (s : Schema Message) (m : Message)
      → get_by_type cl.descriptor typ ≡ some s
      → run_additional c s.additional_validate m ≢ panic)
    (w : W) where
  revision_of-ne-panic : (a : Option Error × IstioKind c.Value) → revision_of c nil_map a ≢ panic
  revision_of-ne-panic (some x, k) = cc
  revision_of-ne-panic (none, k) = cc

  create-ne-panic :
      (e : Entry Message) → c.marshal_to_string e.spec ≢ panic → (create c nil_map cl e w).0 ≢ panic
  create-ne-panic e encodes = elim (create-cases c nil_map cl e known checks (λ s p. encodes) w) [
    | inl (x, p) ↦ rw p (λ h. cc)
    | inr (s, out, obj, r, p) ↦ rw p (revision_of-ne-panic _)
  ]

  update-ne-panic :
      (e : Entry Message) → c.marshal_to_string e.spec ≢ panic → (update c nil_map cl e w).0 ≢ panic
  update-ne-panic e encodes = elim (update-cases c nil_map cl e known checks (λ s p. encodes) w) [
    | inl (x, p) ↦ rw p (λ h. cc)
    | inr (s, out, obj, r, m, p) ↦ rw p (revision_of-ne-panic _)
  ]

  got-ne-panic :
      (s : Schema Message) (a : Option Error × IstioKind c.Value) → got c nil_map s a ≢ panic
  got-ne-panic s (some x, k) = cc
  got-ne-panic s (none, k) = ground (arith, convert_object-ne-panic c nil_map s k)

  get-ne-panic : (typ name namespace : Text) → (get c nil_map cl typ name namespace w).0 ≢ panic
  unfolding get
  get-ne-panic typ name namespace = elim (Option-cases (get_by_type cl.descriptor typ)) [
    | inl p ↦ ground arith
    | inr (s, p) ↦
        let (q, same) = known_of_found c.Value cl.descriptor typ s known p in
        let (k, r) = new_object_known s.type q in
        let r' = subst (λ t. new_object t ≡ ok k) same r in
        let answer = (cl.dynamic.get_into namespace (plural_of s) name k w).0 in
        ground (arith, got-ne-panic s answer)
  ]

  delete-ne-panic :
      (typ name namespace : Text) → (delete c nil_map cl typ name namespace w).0 ≢ panic
  unfolding delete
  delete-ne-panic typ name namespace = ground arith

  -- At a client whose types are all known, and whose schemas' own checks do not panic, creating and
  -- updating an entry at whose message jsonpb does not panic, and reading and deleting an object,
  -- never panic, whatever the server answers.
  pub operations-ne-panic :
      (e : Entry Message) (typ name namespace : Text)
      → c.marshal_to_string e.spec ≢ panic
      → ((create c nil_map cl e w).0 ≢ panic)
        × ((update c nil_map cl e w).0 ≢ panic)
        × ((get c nil_map cl typ name namespace w).0 ≢ panic)
        × ((delete c nil_map cl typ name namespace w).0 ≢ panic)
  operations-ne-panic e typ name namespace encodes = (
    create-ne-panic e encodes,
    update-ne-panic e encodes,
    get-ne-panic typ name namespace,
    delete-ne-panic typ name namespace,
  )
