-- ===== src/Crd/Cluster/Clean.antt =====
-- A cluster that only clients have written to holds no object that cannot be read.
use old_broker_repo.Prelude.{
  Text, Option, none, some, Error, ok, panic, Bool, true, false, inl, inr, ◌≡◌, ◌≢◌, ◌⊎◌, refl,
  arith, ◌==◌, ◌&&◌, eq_iff, if◌then◌else◌, subst, sym, ◌∙◌, Option-cases,
}
use mathlib.Core.Option.{some-injective}
use old_broker_repo.Config.Resource.{Entry}
use old_broker_repo.Config.Codec.{Codec, CodecLaws}
use old_broker_repo.Config.Schema.{Schema, run_additional}
use old_broker_repo.Config.Schema.Validation.{IsAcceptable, validate_iff}
use old_broker_repo.Config.Descriptor.{get_by_type}
use old_broker_repo.Crd.Objects.{IstioKind}
use old_broker_repo.Crd.Conversion.{convert_object}
use old_broker_repo.Crd.Client.{Client, plural_of, schema_of, create, update, delete}
use old_broker_repo.Crd.Client.Sends.{IsReady, create-cases, update-cases}
use old_broker_repo.Crd.Client.Total.{AreKnown}
use old_broker_repo.Crd.Api.{Objects, Same, Sets, IsAnswerTo, IsWritten, ApiLaws}
use old_broker_repo.Crd.Cluster.{AreApart, IsTyped, kept}
use old_broker_repo.Crd.Cluster.Sent.{IsSent-convert_config}

module _ {W Message : Type 0} (c : Codec Message) (nil_map : c.Value)
    (message_name : Message → Text) (cl : Client W Message c.Value) where
  -- The object is read as an entry of its name and namespace, with a message of the type that its
  -- schema names and that the schema accepts.
  pub record IsReadable (s : Schema Message) (ns n : Text) (k : IstioKind c.Value) : Type 0 where
    pub entry : Entry Message
    pub named : entry.name ≡ n
    pub placed : entry.namespace ≡ ns
    pub read : convert_object c nil_map s (some k) ≡ ok entry
    pub typed : message_name entry.spec ≡ s.message_name
    pub acceptable : IsAcceptable c s entry.spec

  -- So is every object of the resource of a type of the descriptor.
  abbrev pub IsClean : Objects c.Value → Type 0
  IsClean f =
      (t n ns : Text) (s : Schema Message) (k : IstioKind c.Value)
      → get_by_type cl.descriptor t ≡ some s
      → f ns (plural_of s) n ≡ some k
      → IsReadable s ns n k

  pub Same-IsClean : (f g : Objects c.Value) → Same f g → IsClean f → IsClean g
  Same-IsClean f g h clean t n ns s k p q = clean t n ns s k p (sym (h ns (plural_of s) n) ∙ q)

  if-some :
      {A : Type 0} (b : Bool) (x y : Option A) (k : A)
      → (if b then x else y) ≡ some k
      → ((b ≡ true) × (x ≡ some k)) ⊎ (y ≡ some k)
  if-some true x y k h = inl (refl, h)
  if-some false x y k h = inr h

  Sets-IsClean :
      (t : Text) (s : Schema Message) (ns n : Text) (v : Option (IstioKind c.Value))
      (f g : Objects c.Value)
      → AreApart cl.descriptor
      → get_by_type cl.descriptor t ≡ some s
      → Sets ns (plural_of s) n v f g
      → ((k : IstioKind c.Value) → v ≡ some k → IsReadable s ns n k)
      → IsClean f
      → IsClean g
  Sets-IsClean t s ns n v f g apart found sets good clean t' n' ns' s' k p q =
      elim (if-some (ns == ns' && (plural_of s == plural_of s' && n == n')) v
        (f ns' (plural_of s') n') k (sym (sets ns' (plural_of s') n') ∙ q)) [
          | inl (b, r) ↦
              let e : (plural_of s == plural_of s') ≡ true = ground arith in
              let same = apart t t' s s' found p ((eq_iff (plural_of s) (plural_of s')).0 e) in
              let ns_eq : (ns == ns') ≡ true = ground arith in
              let n_eq : (n == n') ≡ true = ground arith in
              subst (λ x. IsReadable s' x n' k) ((eq_iff ns ns').0 ns_eq)
                (subst (λ x. IsReadable s' ns x k) ((eq_iff n n').0 n_eq)
                  (subst (λ x. IsReadable x ns n k)
                    (some-injective s s'
                      (sym (subst (λ x. get_by_type cl.descriptor x ≡ some s) same found) ∙ p))
                    (good k r)))
          | inr r ↦ clean t' n' ns' s' k p r
        ]

module _ {W Message : Type 0} (c : Codec Message) (nil_map : c.Value)
    {message_name : Message → Text} (laws : CodecLaws c message_name)
    (cl : Client W Message c.Value) (server : ApiLaws cl.dynamic)
    (known : AreKnown c.Value cl.descriptor) (apart : AreApart cl.descriptor)
    (checks : (typ : Text) (s : Schema Message) (m : Message)
      → get_by_type cl.descriptor typ ≡ some s
      → run_additional c s.additional_validate m ≢ panic) where
  abbrev pub IsCleanAt : W → Type 0
  IsCleanAt w = IsClean c nil_map message_name cl (server.stored w)

  module _ (e : Entry Message) (typed : IsTyped c message_name cl.descriptor e) {s : Schema Message}
      {out obj : IstioKind c.Value} (ready : IsReady c nil_map cl e s out obj) where
    IsReadable-object :
        (k : IstioKind c.Value)
        → IsAnswerTo out k
        → IsReadable c nil_map message_name cl s out.object_meta.namespace out.object_meta.name k
    IsReadable-object k a =
        let sent =
          IsSent-convert_config c nil_map laws cl.descriptor s e out known ready.found typed
            ready.converted in
        record {
          entry = kept e k.object_meta.resource_version;
          named = sym sent.name;
          placed = sym sent.namespace;
          read = sent.back k a;
          typed = sym (typed s ready.found).0;
          acceptable = (validate_iff c s e.spec).0 ready.accepted;
        }

    written-IsCleanAt :
        (a : Option Error × IstioKind c.Value) (w w' : W)
        → IsWritten out.object_meta.namespace
            (plural_of s)
            out.object_meta.name
            out
            a
            (server.stored w)
            (server.stored w')
        → IsCleanAt w
        → IsCleanAt w'
    written-IsCleanAt a w w' p clean =
        Sets-IsClean c nil_map message_name cl e.type s out.object_meta.namespace
          out.object_meta.name (some p.object) (server.stored w) (server.stored w') apart
          ready.found p.sets
          (λ k q.
            subst
              (IsReadable c nil_map message_name cl s out.object_meta.namespace
                out.object_meta.name)
              (some-injective p.object k q) (IsReadable-object p.object p.sent))
          clean

  pub create-IsCleanAt :
      (e : Entry Message) (w : W)
      → IsTyped c message_name cl.descriptor e
      → IsCleanAt w
      → IsCleanAt (create c nil_map cl e w).1
  create-IsCleanAt e w typed clean =
      elim (create-cases c nil_map cl e known checks (λ s p. (typed s p).2) w) [
        | inl (x, p) ↦ rw p clean
        | inr (s, out, obj, r, p) ↦
            rw p (elim (server.post out.object_meta.namespace (plural_of s) out obj w) [
              | inl (n, same) ↦ Same-IsClean c nil_map message_name cl _ _ same clean
              | inr (free, q) ↦ written-IsCleanAt e typed r _ w _ q clean
            ])
      ]

  pub update-IsCleanAt :
      (e : Entry Message) (w : W)
      → IsTyped c message_name cl.descriptor e
      → IsCleanAt w
      → IsCleanAt (update c nil_map cl e w).1
  update-IsCleanAt e w typed clean =
      elim (update-cases c nil_map cl e known checks (λ s p. (typed s p).2) w) [
        | inl (x, p) ↦ rw p clean
        | inr (s, out, obj, r, m, p) ↦
            rw p
              (elim (server.put out.object_meta.namespace (plural_of s) out.object_meta.name out obj
                w) [
                  | inl (n, same) ↦ Same-IsClean c nil_map message_name cl _ _ same clean
                  | inr q ↦ written-IsCleanAt e typed r _ w _ q.written clean
                ])
      ]

  pub delete-IsCleanAt :
      (t n ns : Text) (w : W) → IsCleanAt w → IsCleanAt (delete c nil_map cl t n ns w).1
  unfolding delete
  delete-IsCleanAt t n ns w clean = elim (Option-cases (get_by_type cl.descriptor t)) [
    | inl p ↦ rw (delete, schema_of, p) clean
    | inr (s, p) ↦
        rw (delete, schema_of, p)
          (elim (server.delete ns (plural_of s) n w) [
            | inl (m, same) ↦ Same-IsClean c nil_map message_name cl _ _ same clean
            | inr sets ↦
                Sets-IsClean c nil_map message_name cl t s ns n none _ _ apart p sets (λ k q. cc)
                  clean
          ])
  ]
