-- ===== src/Crd/Objects/Copies.antt =====
-- What copying does: an object is copied whole, and a list with items panics.
use old_broker_repo.Prelude.{
  Text, List, [], ◌∷◌, Option, none, some, ok, panic, ◌≡◌, ◌≢◌, ◌↔◌, refl, arith, inl, inr,
  Option-cases,
}
use old_broker_repo.Crd.Objects.{
  IstioKind, IstioKindList, KnownType, deep_copy_into, list_deep_copy_into, list_deep_copy,
  known_types, new_object, new_collection,
}

module _ {Value : Type 0} where
  copy_into_nil : (item : Option (IstioKind Value)) → deep_copy_into item none ≡ panic
  unfolding deep_copy_into
  copy_into_nil none = refl
  copy_into_nil (some k) = refl

  list_deep_copy_of :
      (l : IstioKindList Value) (items : Option (List (Option (IstioKind Value))))
      → l.items ≡ items
      → (list_deep_copy (some l) ≡ panic) ↔ (
          (item : Option (IstioKind Value)) × (rest : List (Option (IstioKind Value))) × (items
            ≡ some (item ∷ rest)))
  unfolding list_deep_copy
  list_deep_copy_of l none e = rw (e, list_deep_copy_into) ((λ h. cc), λ (x, y, h). cc)
  list_deep_copy_of l (some []) e = rw (e, list_deep_copy_into) ((λ h. cc), λ (x, y, h). cc)
  list_deep_copy_of l (some (item ∷ rest)) e =
      rw (e, list_deep_copy_into, copy_into_nil) ((λ h. (item, rest, refl)), λ h. refl)

  -- The deep copy of a list of objects panics exactly if the list has an item: the items are copied
  -- into nil pointers.
  pub list_deep_copy-panic_iff :
      (l : IstioKindList Value)
      → (list_deep_copy (some l) ≡ panic) ↔ (
          (item : Option (IstioKind Value)) × (items : List (Option (IstioKind Value))) × (l.items
            ≡ some (item ∷ items)))
  list_deep_copy-panic_iff l = list_deep_copy_of l l.items refl

  known_collection :
      (typ : Text) (k : KnownType Value) → known_types typ ≡ some k → k.collection.items ≡ none
  unfolding known_types
  known_collection typ k e = ground arith

  -- There is a new object for a known type.
  pub new_object_known :
      (typ : Text)
      → known_types {Value = Value} typ ≢ none
      → (k : IstioKind Value) × (new_object typ ≡ ok k)
  unfolding new_object
  new_object_known typ h = elim (Option-cases (known_types {Value = Value} typ)) [
    | inl e ↦ absurd (h e)
    | inr (k, e) ↦ (k.object, rw (e, new_object))
  ]

  list_deep_copy_of_none :
      (l : IstioKindList Value) → l.items ≡ none → list_deep_copy (some l) ≡ ok (some l)
  unfolding list_deep_copy list_deep_copy_into
  list_deep_copy_of_none l e = ground arith

  -- There is a new list for a known type.
  pub new_collection_known :
      (typ : Text)
      → known_types {Value = Value} typ ≢ none
      → (l : IstioKindList Value) × (new_collection typ ≡ ok l)
  unfolding new_collection
  new_collection_known typ h = elim (Option-cases (known_types {Value = Value} typ)) [
    | inl e ↦ absurd (h e)
    | inr (k, e) ↦ (
      k.collection,
      rw (e, new_collection, list_deep_copy_of_none k.collection (known_collection typ k e)),
    )
  ]
