-- ===== src/Crd/Cluster/Calls.antt =====
-- The client keeps what the interface promises.
use old_broker_repo.Prelude.{
  Text, [], Option, none, some, Error, panic, inl, inr, ◌≡◌, ◌≢◌, ◌⊎◌, refl, Option-cases, subst,
  sym, ap, ◌∙◌,
}
use old_broker_repo.Config.Resource.{Entry}
use old_broker_repo.Config.Codec.{Codec, CodecLaws}
use old_broker_repo.Config.Schema.{Schema, run_additional}
use old_broker_repo.Config.Descriptor.{get_by_type}
use old_broker_repo.Crd.Objects.{IstioKind}
use old_broker_repo.Crd.Conversion.{convert_object}
use old_broker_repo.Crd.Client.{
  Client, plural_of, no_error, schema_of, revision_of, create, update, delete,
}
use old_broker_repo.Crd.Client.Sends.{IsReady, create-cases, update-cases}
use old_broker_repo.Crd.Client.Total.{AreKnown}
use old_broker_repo.Crd.Api.{Same, Sets, IsWritten, IsReplaced, ApiLaws}
use old_broker_repo.Crd.Cluster.{
  creates, updates, deletes, View, SetsView, kept, Adds, Replaces, Allows, AreApart, IsTyped,
  readable, shown, view,
}
use old_broker_repo.Crd.Cluster.Sent.{IsSent, IsSent-convert_config, readable-revision}
use old_broker_repo.Crd.Cluster.Views.{Same-SameView, Sets-SetsView, view_found}

module _ {W Message : Type 0} (c : Codec Message) (nil_map : c.Value)
    {message_name : Message → Text} (laws : CodecLaws c message_name)
    (cl : Client W Message c.Value) (server : ApiLaws cl.dynamic)
    (known : AreKnown c.Value cl.descriptor) (apart : AreApart cl.descriptor)
    (checks : (typ : Text) (s : Schema Message) (m : Message)
      → get_by_type cl.descriptor typ ≡ some s
      → run_additional c s.additional_validate m ≢ panic) where
  abbrev shows : W → View Message
  shows w = view c nil_map cl server w

  module _ (e : Entry Message) (typed : IsTyped c message_name cl.descriptor e) {s : Schema Message}
      {out obj : IstioKind c.Value} (ready : IsReady c nil_map cl e s out obj) where
    sent : IsSent c nil_map laws s e out
    sent =
        IsSent-convert_config c nil_map laws cl.descriptor s e out known ready.found typed
          ready.converted

    -- An object that is stored for the entry shows the entry.
    written-SetsView :
        (a : Option Error × IstioKind c.Value) (w w' : W)
        → (p : IsWritten out.object_meta.namespace
            (plural_of s)
            out.object_meta.name
            out
            a
            (server.stored w)
            (server.stored w'))
        → SetsView e.type e.name e.namespace
            (some (kept e p.object.object_meta.resource_version))
            (shows w)
            (shows w')
    written-SetsView a w w' p =
        let sets = rw (sent.name, sent.namespace) at p.sets in
        subst (λ x. SetsView e.type e.name e.namespace x (shows w) (shows w'))
          (ap (readable c nil_map) (sent.back p.object p.sent))
          (Sets-SetsView c nil_map cl server w w' e.type e.name e.namespace s (some p.object) apart
            ready.found sets)

    written-Adds :
        (a : Option Error × IstioKind c.Value) (w w' : W)
        → server.stored w out.object_meta.namespace (plural_of s) out.object_meta.name ≡ none
        → (p : IsWritten out.object_meta.namespace
            (plural_of s)
            out.object_meta.name
            out
            a
            (server.stored w)
            (server.stored w'))
        → Adds e p.object.object_meta.resource_version (shows w) (shows w')
    written-Adds a w w' free p =
        let f = rw (sent.name, sent.namespace) at free in
        (
          view_found c nil_map cl server w e.type e.name e.namespace s ready.found
              ∙ ap (shown c nil_map s) f,
          written-SetsView a w w' p,
        )

    replaced-Replaces :
        (a : Option Error × IstioKind c.Value) (w w' : W)
        → e.resource_version ≢ []
        → (p : IsReplaced out.object_meta.namespace
            (plural_of s)
            out.object_meta.name
            out
            a
            (server.stored w)
            (server.stored w'))
        → Replaces e p.written.object.object_meta.resource_version (shows w) (shows w')
    replaced-Replaces a w w' n p =
        let held = rw (sent.name, sent.namespace) at p.held in
        let same : p.old.object_meta.resource_version ≡ e.resource_version =
          p.current (λ q. n (sym sent.revision ∙ q)) ∙ sent.revision in
        let seen =
          view_found c nil_map cl server w e.type e.name e.namespace s ready.found
          ∙ ap (shown c nil_map s) held in
        record {
          sets = written-SetsView a w w' p.written;
          current = λ x q. readable-revision c nil_map laws s p.old x (sym seen ∙ q) ∙ same;
          fresh = elim p.fresh [
            | inl m ↦ inl (λ q. m (q ∙ sym same))
            | inr q ↦ inr (
                seen
                ∙ ap (λ k. readable c nil_map (convert_object c nil_map s (some k))) (sym q)
                ∙ ap (readable c nil_map) (sent.back p.written.object p.written.sent))
          ];
        }

    post-Allows :
        (a : Option Error × IstioKind c.Value) (w w' : W)
        → ((a.0 ≢ none) × Same (server.stored w) (server.stored w'))
          ⊎ ((server.stored w out.object_meta.namespace (plural_of s) out.object_meta.name ≡ none)
              × IsWritten out.object_meta.namespace
                  (plural_of s)
                  out.object_meta.name
                  out
                  a
                  (server.stored w)
                  (server.stored w'))
        → Allows (shows w) (shows w') (creates e (revision_of c nil_map a))
    post-Allows (some x, k) w w' (inl (n, same)) = inl (Same-SameView c nil_map cl server w w' same)
    post-Allows (none, k) w w' (inl (n, same)) = absurd (n refl)
    post-Allows (some x, k) w w' (inr (free, p)) =
        inr (p.object.object_meta.resource_version, written-Adds (some x, k) w w' free p)
    post-Allows (none, k) w w' (inr (free, p)) =
        subst (λ o. Adds e o.object_meta.resource_version (shows w) (shows w'))
          (sym (p.answered refl)) (written-Adds (none, k) w w' free p)

    put-Allows :
        (a : Option Error × IstioKind c.Value) (w w' : W)
        → e.resource_version ≢ []
        → ((a.0 ≢ none) × Same (server.stored w) (server.stored w'))
          ⊎ IsReplaced out.object_meta.namespace
              (plural_of s)
              out.object_meta.name
              out
              a
              (server.stored w)
              (server.stored w')
        → Allows (shows w) (shows w') (updates e (revision_of c nil_map a))
    put-Allows (some x, k) w w' m (inl (n, same)) =
        inl (Same-SameView c nil_map cl server w w' same)
    put-Allows (none, k) w w' m (inl (n, same)) = absurd (n refl)
    put-Allows (some x, k) w w' m (inr p) =
        inr (p.written.object.object_meta.resource_version, replaced-Replaces (some x, k) w w' m p)
    put-Allows (none, k) w w' m (inr p) =
        subst (λ o. Replaces e o.object_meta.resource_version (shows w) (shows w'))
          (sym (p.written.answered refl)) (replaced-Replaces (none, k) w w' m p)

  pub create-Allows :
      (e : Entry Message) (w : W)
      → IsTyped c message_name cl.descriptor e
      → Allows (shows w) (shows (create c nil_map cl e w).1) (creates e (create c nil_map cl e w).0)
  create-Allows e w typed =
      elim (create-cases c nil_map cl e known checks (λ s p. (typed s p).2) w) [
        | inl (x, p) ↦ rw p (inl (λ t n ns. refl))
        | inr (s, out, obj, r, p) ↦ rw p (
            post-Allows e typed r _ w _
              (server.post out.object_meta.namespace (plural_of s) out obj w))
      ]

  pub update-Allows :
      (e : Entry Message) (w : W)
      → IsTyped c message_name cl.descriptor e
      → Allows (shows w) (shows (update c nil_map cl e w).1) (updates e (update c nil_map cl e w).0)
  update-Allows e w typed =
      elim (update-cases c nil_map cl e known checks (λ s p. (typed s p).2) w) [
        | inl (x, p) ↦ rw p (inl (λ t n ns. refl))
        | inr (s, out, obj, r, m, p) ↦ rw p (
            put-Allows e typed r _ w _ m
              (server.put out.object_meta.namespace (plural_of s) out.object_meta.name out obj w))
      ]

  no_error-Allows :
      (t n ns : Text) (s : Schema Message) (x : Option Error) (w w' : W)
      → get_by_type cl.descriptor t ≡ some s
      → ((x ≢ none) × Same (server.stored w) (server.stored w'))
        ⊎ Sets ns (plural_of s) n none (server.stored w) (server.stored w')
      → Allows (shows w) (shows w') (deletes t n ns (no_error x))
  no_error-Allows t n ns s none w w' p (inl (m, same)) = absurd (m refl)
  no_error-Allows t n ns s none w w' p (inr sets) =
      Sets-SetsView c nil_map cl server w w' t n ns s none apart p sets
  no_error-Allows t n ns s (some x) w w' p (inl (m, same)) =
      inl (Same-SameView c nil_map cl server w w' same)
  no_error-Allows t n ns s (some x) w w' p (inr sets) =
      inr (Sets-SetsView c nil_map cl server w w' t n ns s none apart p sets)

  pub delete-Allows :
      (t n ns : Text) (w : W)
      → Allows
          (shows w)
          (shows (delete c nil_map cl t n ns w).1)
          (deletes t n ns (delete c nil_map cl t n ns w).0)
  unfolding delete
  delete-Allows t n ns w = elim (Option-cases (get_by_type cl.descriptor t)) [
    | inl p ↦ rw (delete, schema_of, p) (inl (λ t' n' ns'. refl))
    | inr (s, p) ↦
        rw (delete, schema_of, p)
          (no_error-Allows t n ns s _ w _ p (server.delete ns (plural_of s) n w))
  ]
