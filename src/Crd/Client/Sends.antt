-- ===== src/Crd/Client/Sends.antt =====
-- A write is refused, or it is sent as one request.
use old_broker_repo.Prelude.{
  Text, [], some, Error, ok, err, panic, inl, inr, ◌≡◌, ◌≢◌, ◌⊎◌, codes, ◌∷◌, errorf, prefixed,
  arith, Option-cases, Result-cases, ◌==?◌,
}
use old_broker_repo.Config.Resource.{Entry}
use old_broker_repo.Config.Codec.{Codec}
use old_broker_repo.Config.Schema.{Schema, validate, run_additional}
use old_broker_repo.Config.Descriptor.{get_by_type}
use old_broker_repo.Crd.Objects.{IstioKind, new_object}
use old_broker_repo.Crd.Objects.Copies.{new_object_known}
use old_broker_repo.Crd.Conversion.{convert_config}
use old_broker_repo.Crd.Client.{Client, plural_of, revision_of, create, update}
use old_broker_repo.Crd.Client.Total.{
  AreKnown, known_of_found, validate-ne-panic, convert_config-ne-panic,
}

module _ {W Message : Type 0} (c : Codec Message) (nil_map : c.Value)
    (cl : Client W Message c.Value) (e : Entry Message) where
  -- What a request is made of: the schema, the object that is sent, and the object for the answer.
  pub record IsReady (s : Schema Message) (out obj : IstioKind c.Value) : Type 0 where
    pub found : get_by_type cl.descriptor e.type ≡ some s
    pub accepted : validate c s e.spec ≡ ok tt
    pub converted : convert_config c nil_map s e ≡ ok out
    pub made : new_object s.type ≡ ok obj

  module _ (known : AreKnown c.Value cl.descriptor)
      (checks : (typ : Text) (s : Schema Message) (m : Message)
        → get_by_type cl.descriptor typ ≡ some s
        → run_additional c s.additional_validate m ≢ panic)
      (encodes : (s : Schema Message)
        → get_by_type cl.descriptor e.type ≡ some s
        → c.marshal_to_string e.spec ≢ panic) where
    IsReady-cases :
        (s : Schema Message)
        → get_by_type cl.descriptor e.type ≡ some s
        → ((x : Error) × (validate c s e.spec ≡ err x))
          ⊎ ((validate c s e.spec ≡ ok tt)
              × (((x : Error) × (convert_config c nil_map s e ≡ err x))
                  ⊎ ((out obj : IstioKind c.Value) × IsReady s out obj)))
    IsReady-cases s p =
        let (q, _) = known_of_found c.Value cl.descriptor e.type s known p in
        let (obj, r) = new_object_known s.type q in
        elim (Result-cases (validate c s e.spec)) [
          | inl (u, v) ↦ inr (
            v,
            elim (Result-cases (convert_config c nil_map s e)) [
              | inl (out, t) ↦
                  inr (out, obj, record { found = p; accepted = v; converted = t; made = r })
              | inr (inl (x, t)) ↦ inl (x, t)
              | inr (inr t) ↦ absurd (convert_config-ne-panic c nil_map s e q (encodes s p) t)
            ],
          )
          | inr (inl (x, v)) ↦ inl (x, v)
          | inr (inr v) ↦ absurd (validate-ne-panic c nil_map s e.spec (checks e.type s e.spec p) v)
        ]

    -- A creation is refused with nothing sent, or it is one request.
    pub create-cases :
        (w : W)
        → ((x : Error) × (create c nil_map cl e w ≡ (err x, w)))
          ⊎ ((s : Schema Message) × (out obj : IstioKind c.Value) × IsReady s out obj
              × (create c nil_map cl e w ≡ (
                  let (a, w') =
                    cl.dynamic.post_into out.object_meta.namespace (plural_of s) out obj w in
                  (revision_of c nil_map a, w'))))
    unfolding create
    create-cases w = elim (Option-cases (get_by_type cl.descriptor e.type)) [
      | inl p ↦ inl (errorf (codes "unrecognized type %q") (e.type ∷ []), ground arith)
      | inr (s, p) ↦ elim (IsReady-cases s p) [
        | inl (x, v) ↦ inl (prefixed x (codes "validation error:"), ground arith)
        | inr (v, inl (x, t)) ↦ inl (x, ground arith)
        | inr (v, inr (out, obj, r)) ↦ inr (s, out, obj, r, ground arith)
      ]
    ]

    -- So is an update, which has a revision where it is sent.
    pub update-cases :
        (w : W)
        → ((x : Error) × (update c nil_map cl e w ≡ (err x, w)))
          ⊎ ((s : Schema Message) × (out obj : IstioKind c.Value) × IsReady s out obj
              × (e.resource_version ≢ [])
              × (update c nil_map cl e w ≡ (
                  let (a, w') =
                    cl.dynamic.put_into out.object_meta.namespace
                      (plural_of s)
                      out.object_meta.name
                      out
                      obj
                      w in
                  (revision_of c nil_map a, w'))))
    unfolding update
    update-cases w = elim (Option-cases (get_by_type cl.descriptor e.type)) [
      | inl p ↦ inl (errorf (codes "unrecognized type %q") (e.type ∷ []), ground arith)
      | inr (s, p) ↦ elim (IsReady-cases s p) [
        | inl (x, v) ↦ inl (prefixed x (codes "validation error:"), ground arith)
        | inr (v, rest) ↦ elim (e.resource_version ==? []) [
          | inl (q, n) ↦ inl (errorf (codes "revision is required") [], ground arith)
          | inr (q, n) ↦ elim rest [
            | inl (x, t) ↦ inl (x, ground arith)
            | inr (out, obj, r) ↦ inr (s, out, obj, r, q, ground arith)
          ]
        ]
      ]
    ]
