-- ===== src/Crd/Cluster/Views.antt =====
-- What a change of the server's objects shows to the client.
use old_broker_repo.Prelude.{
  Text, Option, none, some, Bool, true, false, ◌≡◌, ◌≢◌, refl, inl, inr, Option-cases, ◌&&◌, ◌==◌,
  ◌==?◌, eq_refl, if◌then◌else◌, ap, subst,
}
use old_broker_repo.Config.Codec.{Codec}
use old_broker_repo.Config.Schema.{Schema}
use old_broker_repo.Config.Descriptor.{Descriptor, get_by_type}
use old_broker_repo.Crd.Objects.{IstioKind}
use old_broker_repo.Crd.Client.{Client, plural_of}
use old_broker_repo.Crd.Api.{Same, Sets, ApiLaws}
use old_broker_repo.Crd.Cluster.{SameView, SetsView, AreApart, shown, view}

module _ {A : Type 0} where
  if-swap :
      (a b : Bool) (x y : A)
      → (if a && (true && b) then x else y) ≡ (if true && (b && a) then x else y)
  if-swap true true x y = refl
  if-swap true false x y = refl
  if-swap false true x y = refl
  if-swap false false x y = refl

  if-false : (a b : Bool) (x y : A) → (if a && (false && b) then x else y) ≡ y
  if-false true b x y = refl
  if-false false b x y = refl

apart_resources :
    {Message : Type 0} (d : Descriptor Message) (t t' : Text) (s s' : Schema Message)
    → AreApart d
    → t ≢ t'
    → get_by_type d t ≡ some s
    → get_by_type d t' ≡ some s'
    → (plural_of s == plural_of s') ≡ false
apart_resources d t t' s s' apart q p p' = elim (plural_of s ==? plural_of s') [
  | inl (r, e) ↦ absurd (q (apart t t' s s' p p' r))
  | inr (r, e) ↦ e
]

module _ {W Message : Type 0} (c : Codec Message) (nil_map : c.Value)
    (cl : Client W Message c.Value) (server : ApiLaws cl.dynamic) where
  pub view_found :
      (w : W) (typ name namespace : Text) (s : Schema Message)
      → get_by_type cl.descriptor typ ≡ some s
      → view c nil_map cl server w typ name namespace
        ≡ shown c nil_map s (server.stored w namespace (plural_of s) name)
  unfolding view
  view_found w typ name namespace s p = rw (view, p)

  pub view_unfound :
      (w : W) (typ name namespace : Text)
      → get_by_type cl.descriptor typ ≡ none
      → view c nil_map cl server w typ name namespace ≡ none
  unfolding view
  view_unfound w typ name namespace p = rw (view, p)

  pub Same-SameView :
      (w w' : W)
      → Same (server.stored w) (server.stored w')
      → SameView (view c nil_map cl server w) (view c nil_map cl server w')
  Same-SameView w w' h t n ns = elim (Option-cases (get_by_type cl.descriptor t)) [
    | inl p ↦ rw (view_unfound w' t n ns p, view_unfound w t n ns p)
    | inr (s, p) ↦
        rw (view_found w' t n ns s p, view_found w t n ns s p)
          (ap (shown c nil_map s) (h ns (plural_of s) n))
  ]

  shown_if :
      (s : Schema Message) (b : Bool) (v u : Option (IstioKind c.Value))
      → shown c nil_map s (if b then v else u)
        ≡ (if b then shown c nil_map s v else shown c nil_map s u)
  shown_if s true v u = refl
  shown_if s false v u = refl

  -- Setting a key of the resource of a type sets the type's key in the view.
  pub Sets-SetsView :
      (w w' : W) (typ name namespace : Text) (s : Schema Message) (v : Option (IstioKind c.Value))
      → AreApart cl.descriptor
      → get_by_type cl.descriptor typ ≡ some s
      → Sets namespace (plural_of s) name v (server.stored w) (server.stored w')
      → SetsView typ name namespace
          (shown c nil_map s v)
          (view c nil_map cl server w)
          (view c nil_map cl server w')
  Sets-SetsView w w' typ name namespace s v apart found h t n ns = elim (typ ==? t) [
    | inl (q, e) ↦
        let p = subst (λ x. get_by_type cl.descriptor x ≡ some s) q found in
        rw
          (
            view_found w' t n ns s p,
            h ns (plural_of s) n,
            eq_refl (plural_of s),
            e,
            view_found w t n ns s p,
            shown_if,
          )
          (if-swap (namespace == ns) (name == n) _ _)
    | inr (q, e) ↦ elim (Option-cases (get_by_type cl.descriptor t)) [
      | inl p ↦ rw (view_unfound w' t n ns p, view_unfound w t n ns p, e)
      | inr (s', p) ↦
          let other = apart_resources cl.descriptor typ t s s' apart q found p in
          rw (view_found w' t n ns s' p, h ns (plural_of s') n, other, e, view_found w t n ns s' p)
            (ap (shown c nil_map s') (if-false (namespace == ns) (name == n) v _))
    ]
  ]
