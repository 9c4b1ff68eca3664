-- ===== src/Crd/Cluster/Conflicts.antt =====
-- What the interface of a store implies for calls in sequence.
use old_broker_repo.Prelude.{Text, Option, some, ok, panic, inl, inr, ◌≡◌, ◌≢◌, eq_refl, sym, ◌∙◌}
use old_broker_repo.Config.Resource.{Entry}
use old_broker_repo.Config.Codec.{Codec, CodecLaws}
use old_broker_repo.Config.Schema.{Schema, run_additional}
use old_broker_repo.Config.Descriptor.{get_by_type}
use old_broker_repo.Crd.Client.{Client}
use old_broker_repo.Crd.Client.Total.{AreKnown}
use old_broker_repo.Crd.Api.{ApiLaws}
use old_broker_repo.Crd.Cluster.{
  View, Allows, AreApart, IsTyped, SetsView, kept, creates, updates, view, Runs,
}
use old_broker_repo.Crd.Cluster.Refines.{Runs-Allows}

module _ {Message : Type 0} where
  set_self :
      (t n ns : Text) (x : Option (Entry Message)) (u v : View Message)
      → SetsView t n ns x u v
      → v t n ns ≡ x
  set_self t n ns x u v h = h t n ns ∙ rw (eq_refl t, eq_refl n, eq_refl ns)

  abbrev pub IsOfKey : Entry Message → Entry Message → Type 0
  IsOfKey e e' = (e'.type ≡ e.type) × (e'.name ≡ e.name) × (e'.namespace ≡ e.namespace)

  -- Two entries of one key and revision.
  abbrev pub IsRival : Entry Message → Entry Message → Type 0
  IsRival e e' = IsOfKey e e' × (e'.resource_version ≡ e.resource_version)

  -- After an update that changed something nobody's older copy can be written.
  update_conflict :
      (e e' : Entry Message) (revision revision' : Text) (u v v' : View Message)
      → Allows u v (updates e (ok revision))
      → Allows v v' (updates e' (ok revision'))
      → IsRival e e'
      → u e.type e.name e.namespace ≡ some (kept e revision)
  update_conflict e e' revision revision' u v v' a b ((p, q, r), same) =
      let seen = set_self e.type e.name e.namespace _ u v a.sets in
      let at' : v e'.type e'.name e'.namespace ≡ some (kept e revision) = rw (p, q, r) seen in
      elim a.fresh [ inl n ↦ absurd (n (b.current (kept e revision) at' ∙ same)) | inr h ↦ h ]

  -- A key is there after an entry of it is created.
  create_conflict :
      (e e' : Entry Message) (revision revision' : Text) (u v v' : View Message)
      → Allows u v (creates e (ok revision))
      → Allows v v' (creates e' (ok revision'))
      → IsOfKey e e'
      → ⊥
  create_conflict e e' revision revision' u v v' a b (p, q, r) =
      let seen = set_self e.type e.name e.namespace _ u v a.1 in
      let at' : v e'.type e'.name e'.namespace ≡ some (kept e revision) = rw (p, q, r) seen in
      cc (sym b.0 ∙ at')

module _ {W Message : Type 0} (c : Codec Message) (nil_map : c.Value)
    {message_name : Message → Text} (laws : CodecLaws c message_name)
    (cl : Client W Message c.Value) (server : ApiLaws cl.dynamic)
    (known : AreKnown c.Value cl.descriptor) (apart : AreApart cl.descriptor)
    (checks : (typ : Text) (s : Schema Message) (m : Message)
      → get_by_type cl.descriptor typ ≡ some s
      → run_additional c s.additional_validate m ≢ panic) where
  -- At a client whose types are all known and have resources of their own, whose schemas' own
  -- checks do not panic, where encodings can be undone and the server keeps the laws of its API,
  -- right after an update of a key has returned a revision and changed what is shown, an update of
  -- the key that was made from the same revision as the first returns none, where the messages are
  -- of the schemas' registered types and jsonpb does not panic at them.
  pub update-excludes :
      (e e' : Entry Message) (revision revision' : Text) (w w' w₁ : W)
      → IsTyped c message_name cl.descriptor e
      → IsTyped c message_name cl.descriptor e'
      → IsRival e e'
      → view c nil_map cl server w e.type e.name e.namespace ≢ some (kept e revision)
      → Runs c nil_map cl server w (updates e (ok revision)) w'
      → ¬ Runs c nil_map cl server w' (updates e' (ok revision')) w₁
  update-excludes e e' revision revision' w w' w₁ t t' rival changed h h' =
      let allowed = Runs-Allows c nil_map laws cl server known apart checks in
      changed (
        update_conflict e e' revision revision' (view c nil_map cl server w)
          (view c nil_map cl server w') (view c nil_map cl server w₁)
          (allowed (updates e (ok revision)) w w' t h)
          (allowed (updates e' (ok revision')) w' w₁ t' h') rival)

  -- At a client whose types are all known and have resources of their own, whose schemas' own
  -- checks do not panic, where encodings can be undone and the server keeps the laws of its API,
  -- right after a creation has returned a revision, a creation of an entry of the same key returns
  -- none, where the messages are of the schemas' registered types.
  create-excludes :
      (e e' : Entry Message) (revision revision' : Text) (w w' w₁ : W)
      → IsTyped c message_name cl.descriptor e
      → IsTyped c message_name cl.descriptor e'
      → IsOfKey e e'
      → Runs c nil_map cl server w (creates e (ok revision)) w'
      → ¬ Runs c nil_map cl server w' (creates e' (ok revision')) w₁
  create-excludes e e' revision revision' w w' w₁ t t' rival h h' =
      let allowed = Runs-Allows c nil_map laws cl server known apart checks in
      create_conflict e e' revision revision' (view c nil_map cl server w)
        (view c nil_map cl server w') (view c nil_map cl server w₁)
        (allowed (creates e (ok revision)) w w' t h)
        (allowed (creates e' (ok revision')) w' w₁ t' h') rival
