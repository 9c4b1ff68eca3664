-- ===== src/Crd/Cluster/Existing.antt =====
-- An update needs an entry that is there.
use old_broker_repo.Prelude.{
  Text, [], Option, none, some, Error, ok, panic, ◌≡◌, ◌≢◌, ◌⊎◌, inl, inr, refl, ap, sym, ◌∙◌,
}
use old_broker_repo.Config.Resource.{Entry}
use old_broker_repo.Config.Codec.{Codec, CodecLaws}
use old_broker_repo.Config.Schema.{Schema, run_additional}
use old_broker_repo.Config.Descriptor.{get_by_type}
use old_broker_repo.Crd.Objects.{IstioKind}
use old_broker_repo.Crd.Client.{Client, plural_of, revision_of, update}
use old_broker_repo.Crd.Client.Sends.{IsReady, update-cases}
use old_broker_repo.Crd.Client.Total.{AreKnown}
use old_broker_repo.Crd.Api.{Same, IsReplaced, ApiLaws}
use old_broker_repo.Crd.Cluster.{AreApart, IsTyped, readable, shown, view}
use old_broker_repo.Crd.Cluster.Sent.{IsSent-convert_config, readable-revision}
use old_broker_repo.Crd.Cluster.Views.{view_found}
use old_broker_repo.Crd.Cluster.Clean.{IsCleanAt}
use old_broker_repo.Crd.Cluster.Reached.{Reach, Reach-IsCleanAt}

module _ {W Message : Type 0} (c : Codec Message) (nil_map : c.Value)
    {message_name : Message → Text} (laws : CodecLaws c message_name)
    (cl : Client W Message c.Value) (server : ApiLaws cl.dynamic)
    (known : AreKnown c.Value cl.descriptor) (apart : AreApart cl.descriptor)
    (checks : (typ : Text) (s : Schema Message) (m : Message)
      → get_by_type cl.descriptor typ ≡ some s
      → run_additional c s.additional_validate m ≢ panic)
    (e : Entry Message) (typed : IsTyped c message_name cl.descriptor e) (w : W) where
  -- An entry of the key is shown, at the revision of `e`.
  abbrev pub IsCurrent : Type 0
  IsCurrent =
      (x : Entry Message) × (view c nil_map cl server w e.type e.name e.namespace ≡ some x)
      × (x.resource_version ≡ e.resource_version)

  module _ (clean : IsCleanAt c nil_map laws cl server known apart checks w)
      (given : e.resource_version ≢ []) {s : Schema Message} {out obj : IstioKind c.Value}
      (ready : IsReady c nil_map cl e s out obj) where
    replaced-IsCurrent :
        (a : Option Error × IstioKind c.Value) (w' : W)
        → IsReplaced out.object_meta.namespace
            (plural_of s)
            out.object_meta.name
            out
            a
            (server.stored w)
            (server.stored w')
        → IsCurrent
    replaced-IsCurrent a w' p =
        let sent =
          IsSent-convert_config c nil_map laws cl.descriptor s e out known ready.found typed
            ready.converted in
        let held : server.stored w e.namespace (plural_of s) e.name ≡ some p.old =
          rw (sent.name, sent.namespace) at p.held in
        let good = clean e.type e.name e.namespace s p.old ready.found held in
        let read = ap (readable c nil_map) good.read in
        (
          good.entry,
          view_found c nil_map cl server w e.type e.name e.namespace s ready.found
              ∙ ap (shown c nil_map s) held
              ∙ read,
          readable-revision c nil_map laws s p.old good.entry read
              ∙ p.current (λ q. given (sym sent.revision ∙ q))
              ∙ sent.revision,
        )

    put-IsCurrent :
        (a : Option Error × IstioKind c.Value) (w' : W) (revision : Text)
        → revision_of c nil_map a ≡ ok revision
        → ((a.0 ≢ none) × Same (server.stored w) (server.stored w'))
          ⊎ IsReplaced out.object_meta.namespace
              (plural_of s)
              out.object_meta.name
              out
              a
              (server.stored w)
              (server.stored w')
        → IsCurrent
    put-IsCurrent a w' revision q (inr p) = replaced-IsCurrent a w' p
    put-IsCurrent (some x, k) w' revision q (inl (n, same)) = cc
    put-IsCurrent (none, k) w' revision q (inl (n, same)) = absurd (n refl)

  -- At a client whose types are all known and have resources of their own, whose schemas' own
  -- checks do not panic, where encodings can be undone and the server keeps the laws of its API, in
  -- every cluster that its calls reach from one with no objects, an update with a message of the
  -- schema's registered type returns a revision only where an entry of the key is shown, and at the
  -- revision that the update was made from.
  pub update-existing :
      (revision : Text)
      → Reach c nil_map message_name cl server w
      → (update c nil_map cl e w).0 ≡ ok revision
      → (x : Entry Message) × (view c nil_map cl server w e.type e.name e.namespace ≡ some x)
        × (x.resource_version ≡ e.resource_version)
  update-existing revision reach h =
      let clean = Reach-IsCleanAt c nil_map laws cl server known apart checks w reach in
      elim (update-cases c nil_map cl e known checks (λ s p. (typed s p).2) w) [
        | inl (x, p) ↦ cc (sym (ap (λ r. r.0) p) ∙ h)
        | inr (s, out, obj, r, m, p) ↦
            put-IsCurrent clean m r _ _ revision (sym (ap (λ x. x.0) p) ∙ h)
              (server.put out.object_meta.namespace (plural_of s) out.object_meta.name out obj w)
      ]
