-- ===== src/Crd/Cluster/Reads.antt =====
-- Reading one object.
use old_broker_repo.Prelude.{
  Text, Option, none, some, Error, ok, inl, inr, ◌≡◌, ◌≢◌, ◌⊎◌, refl, sym, Option-cases,
  Result-cases, ap, ◌∙◌, subst,
}
use old_broker_repo.Config.Codec.{Codec}
use old_broker_repo.Config.Schema.{Schema}
use old_broker_repo.Config.Descriptor.{get_by_type}
use old_broker_repo.Crd.Objects.{IstioKind, new_object}
use old_broker_repo.Crd.Objects.Copies.{new_object_known, new_collection_known}
use old_broker_repo.Crd.Conversion.{convert_object}
use old_broker_repo.Crd.Client.{Client, plural_of, got, get, list}
use old_broker_repo.Crd.Client.Total.{AreKnown, known_of_found, convert_object-ne-panic}
use old_broker_repo.Crd.Api.{Same, ApiLaws}
use old_broker_repo.Crd.Cluster.{SameView, readable, shown, view}
use old_broker_repo.Crd.Cluster.Views.{view_found, view_unfound, Same-SameView}

module _ {Message : Type 0} (c : Codec Message) (nil_map : c.Value) (s : Schema Message) where
  got_found :
      (k : IstioKind c.Value)
      → got c nil_map s (none, k) ≡ ok (readable c nil_map (convert_object c nil_map s (some k)))
  got_found k = elim (Result-cases (convert_object c nil_map s (some k))) [
    | inl (x, p) ↦ rw (got, p)
    | inr (inl (x, p)) ↦ rw (got, p)
    | inr (inr p) ↦ absurd (convert_object-ne-panic c nil_map s k p)
  ]

module _ {W Message : Type 0} (c : Codec Message) (nil_map : c.Value)
    (cl : Client W Message c.Value) (server : ApiLaws cl.dynamic)
    (known : AreKnown c.Value cl.descriptor) where
  -- What a request says of an object that is stored or not.
  got_lem :
      (s : Schema Message) (n ns : Text) (w : W) (a : Option Error × IstioKind c.Value)
      → (a.0 ≡ none → server.stored w ns (plural_of s) n ≡ some a.1)
      → ((a.0 ≢ none) × (got c nil_map s a ≡ ok none))
        ⊎ (got c nil_map s a ≡ ok (shown c nil_map s (server.stored w ns (plural_of s) n)))
  got_lem s n ns w (some x, k) h = inl ((λ p. cc), refl)
  got_lem s n ns w (none, k) h = inr (rw (h refl) (got_found c nil_map s k))

  -- A reading is one request where the type is known.
  get-cases :
      (t n ns : Text) (w : W)
      → ((get c nil_map cl t n ns w ≡ (ok none, w)) × (view c nil_map cl server w t n ns ≡ none))
        ⊎ ((s : Schema Message) × (obj : IstioKind c.Value) × (get c nil_map cl t n ns w ≡ (
              let (a, w') = cl.dynamic.get_into ns (plural_of s) n obj w in
              (got c nil_map s a, w')))
            × (view c nil_map cl server w t n ns
                ≡ shown c nil_map s (server.stored w ns (plural_of s) n)))
  unfolding get
  get-cases t n ns w = elim (Option-cases (get_by_type cl.descriptor t)) [
    | inl p ↦ inl (rw (get, p), view_unfound c nil_map cl server w t n ns p)
    | inr (s, p) ↦
        let (q, same) = known_of_found c.Value cl.descriptor t s known p in
        let (obj, r) = new_object_known s.type q in
        let r' = subst (λ x. new_object x ≡ ok obj) same r in
        inr (s, obj, rw (get, p, r'), view_found c nil_map cl server w t n ns s p)
  ]

  -- Reading returns what the view shows, or nothing after an error.
  pub get-view :
      (t n ns : Text) (w : W)
      → ((get c nil_map cl t n ns w).0 ≡ ok none)
        ⊎ ((get c nil_map cl t n ns w).0 ≡ ok (view c nil_map cl server w t n ns))
  get-view t n ns w = elim (get-cases t n ns w) [
    | inl (p, q) ↦ inl (ap (λ x. x.0) p)
    | inr (s, obj, p, q) ↦ elim (got_lem s n ns w _ (server.get_lem ns (plural_of s) n obj w)) [
      | inl (_, r) ↦ inl (ap (λ x. x.0) p ∙ r)
      | inr r ↦ inr (ap (λ x. x.0) p ∙ r ∙ ap (λ o. ok o) (sym q))
    ]
  ]

  -- Where the server answers a reading of what is there, reading returns what the view shows.
  pub get-view_answered :
      ((ns res n : Text) (obj k : IstioKind c.Value) (w : W)
        → server.stored w ns res n ≡ some k
        → (cl.dynamic.get_into ns res n obj w).0.0 ≡ none)
      → (t n ns : Text) (w : W)
      → (get c nil_map cl t n ns w).0 ≡ ok (view c nil_map cl server w t n ns)
  get-view_answered answers t n ns w = elim (get-cases t n ns w) [
    | inl (p, q) ↦ ap (λ x. x.0) p ∙ ap (λ o. ok o) (sym q)
    | inr (s, obj, p, q) ↦ elim (got_lem s n ns w _ (server.get_lem ns (plural_of s) n obj w)) [
      | inr r ↦ ap (λ x. x.0) p ∙ r ∙ ap (λ o. ok o) (sym q)
      | inl (failed, r) ↦ elim (Option-cases (server.stored w ns (plural_of s) n)) [
        | inl o ↦
            ap (λ x. x.0) p
            ∙ r
            ∙ ap (λ x. ok (shown c nil_map s x)) (sym o)
            ∙ ap (λ x. ok x) (sym q)
        | inr (k, o) ↦ absurd (failed (answers ns (plural_of s) n obj k w o))
      ]
    ]
  ]

  -- No read changes what is stored.
  pub get-Same :
      (t n ns : Text) (w : W) → Same (server.stored w) (server.stored (get c nil_map cl t n ns w).1)
  unfolding get
  get-Same t n ns w = elim (Option-cases (get_by_type cl.descriptor t)) [
    | inl p ↦ rw (get, p) (λ ns' res n'. refl)
    | inr (s, p) ↦
        let (q, same) = known_of_found c.Value cl.descriptor t s known p in
        let (obj, r) = new_object_known s.type q in
        let r' = subst (λ x. new_object x ≡ ok obj) same r in
        rw (get, p, r') (server.get_same ns (plural_of s) n obj w)
  ]

  pub list-Same :
      (t ns : Text) (w : W) → Same (server.stored w) (server.stored (list c nil_map cl t ns w).1)
  unfolding list
  list-Same t ns w = elim (Option-cases (get_by_type cl.descriptor t)) [
    | inl p ↦ rw (list, p) (λ ns' res n'. refl)
    | inr (s, p) ↦
        let (q, _) = known_of_found c.Value cl.descriptor t s known p in
        let (items, r) = new_collection_known s.type q in
        rw (list, p, r) (server.list_same ns (plural_of s) items w)
  ]

  -- Nor what is shown.
  pub get-SameView :
      (t n ns : Text) (w : W)
      → SameView
          (view c nil_map cl server w)
          (view c nil_map cl server (get c nil_map cl t n ns w).1)
  get-SameView t n ns w = Same-SameView c nil_map cl server w _ (get-Same t n ns w)
