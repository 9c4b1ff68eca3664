-- ===== src/Crd/Client/Total.antt =====
-- The client does not panic: every type that a client looks up is known.
use mathlib.Core.Option.{some-injective}
use old_broker_repo.Prelude.{
  ℕ, Text, List, [], ◌∷◌, ◌++◌, Option, none, some, Error, ok, panic, ◌≡◌, ◌≢◌, ◌↔◌, refl, arith,
  inl, inr, Option-cases, Result-cases, All, append, sym, ◌==?◌, subst,
}
use old_broker_repo.Config.Resource.{Entry}
use old_broker_repo.Config.Codec.{Codec}
use old_broker_repo.Config.Schema.{validate, run_additional, Schema, from_json_map, to_json_map}
use old_broker_repo.Config.Descriptor.{Descriptor, get_by_type}
use old_broker_repo.Crd.Objects.{IstioKind, IstioKindList, known_types, new_collection, get_items}
use old_broker_repo.Crd.Objects.Copies.{new_collection_known, new_object_known}
use old_broker_repo.Crd.Conversion.{map_value, convert_object, convert_config}
use old_broker_repo.Crd.Client.{Client, plural_of, convert_items, check_types, list}
use old_broker_repo.Crd.Client.Listing.{Converted, convert_items_lem}

-- What `check_types` has established of a descriptor.
abbrev pub AreKnown : {Message : Type 0} → Type 0 → Descriptor Message → Type 0
AreKnown Value d = All (λ s. known_types {Value = Value} s.type ≢ none) d

-- The first test of a new client passes exactly the descriptors whose types are all known.
pub check_types_iff :
    {Message : Type 0} (Value : Type 0) (d : Descriptor Message)
    → (check_types Value d ≡ ok tt) ↔ AreKnown Value d
unfolding check_types
check_types_iff Value [] = ((λ h. tt), λ h. refl)
check_types_iff Value (s ∷ d) = elim (Option-cases (known_types {Value = Value} s.type)) [
  | inl e ↦ rw (e, check_types) ((λ h. cc), λ h. absurd (h.0 refl))
  | inr (k, e) ↦
      let ih = check_types_iff Value d in
      ((λ h. ((λ p. cc), ih.0 (rw (e, check_types) at h))), λ h. rw (e, check_types) (ih.1 h.1))
]

pub known_of_found :
    {Message : Type 0} (Value : Type 0) (d : Descriptor Message) (typ : Text) (s : Schema Message)
    → AreKnown Value d
    → get_by_type d typ ≡ some s
    → (known_types {Value = Value} s.type ≢ none) × (s.type ≡ typ)
unfolding get_by_type
known_of_found Value [] typ s h e = cc
known_of_found Value (t ∷ d) typ s (p, h) e = elim (t.type ==? typ) [
  | inl (q, r) ↦
      let same = some-injective t s (rw (r, get_by_type) at e) in
      subst (λ x. (known_types {Value = Value} x.type ≢ none) × (x.type ≡ typ)) same (p, q)
  | inr (q, r) ↦ known_of_found Value d typ s h (rw (r, get_by_type) at e)
]

module _ {Message : Type 0} (c : Codec Message) (nil_map : c.Value) (s : Schema Message) where
  from_json_map-ne-panic : (v : c.Value) → from_json_map c s v ≢ panic
  unfolding from_json_map
  from_json_map-ne-panic v = ground arith

  to_json_map-ne-panic : (m : Message) → c.marshal_to_string m ≢ panic → to_json_map c m ≢ panic
  unfolding to_json_map
  to_json_map-ne-panic m encodes = ground arith

  pub convert_object-ne-panic :
      (k : IstioKind c.Value) → convert_object c nil_map s (some k) ≢ panic
  unfolding convert_object
  convert_object-ne-panic k = ground (arith, from_json_map-ne-panic (map_value c nil_map k.spec))

  pub validate-ne-panic :
      (m : Message) → run_additional c s.additional_validate m ≢ panic → validate c s m ≢ panic
  unfolding validate
  validate-ne-panic m h = ground arith

  pub convert_config-ne-panic :
      (e : Entry Message)
      → known_types {Value = c.Value} s.type ≢ none
      → c.marshal_to_string e.spec ≢ panic
      → convert_config c nil_map s e ≢ panic
  unfolding convert_config
  convert_config-ne-panic e h encodes =
      let (k, p) = new_object_known s.type h in ground (arith, to_json_map-ne-panic e.spec encodes)

  -- The pointers are not nil.
  abbrev pub AreObjects : List (Option (IstioKind c.Value)) → Type 0
  AreObjects items = All (λ item. item ≢ none) items

  convert_items_total :
      (items : List (Option (IstioKind c.Value))) (out : List (Entry Message)) (errs : Option Error)
      → AreObjects items
      → (r : List (Entry Message) × Option Error) × (convert_items c nil_map s items out errs
          ≡ ok r)
  unfolding convert_items
  convert_items_total [] out errs h = ((out, errs), refl)
  convert_items_total (none ∷ items) out errs h = absurd (h.0 refl)
  convert_items_total (some k ∷ items) out errs h =
      elim (Result-cases (convert_object c nil_map s (some k))) [
        | inl (e, p) ↦ rw (p, convert_items) (convert_items_total items (out ++ e ∷ []) errs h.1)
        | inr (inl (x, p)) ↦
            rw (p, convert_items) (convert_items_total items out (some (append errs (some x))) h.1)
        | inr (inr p) ↦ absurd (convert_object-ne-panic k p)
      ]

module _ {W Message : Type 0} (c : Codec Message) (nil_map : c.Value)
    (cl : Client W Message c.Value) (known : AreKnown c.Value cl.descriptor) (typ : Text)
    {s : Schema Message} (found : get_by_type cl.descriptor typ ≡ some s) where
  -- At a client whose types are all known, a listing of a type of the descriptor, where the server
  -- answers with objects, returns the entries of the objects that can be converted, in the server's
  -- order, and an error exactly if the server had one or an object could not be converted.
  pub list_returns :
      (namespace : Text) (w w' : W) (errs : Option Error) (l : IstioKindList c.Value)
      → ((items : IstioKindList c.Value)
          → new_collection s.type ≡ ok items
          → cl.dynamic.list_into namespace (plural_of s) items w ≡ ((errs, l), w'))
      → AreObjects c nil_map s (get_items l)
      → (out : List (Entry Message)) × (errs' : Option Error) × (n : ℕ) × (list c nil_map cl typ
            namespace w
          ≡ (ok (out, errs'), w'))
        × Converted c nil_map s (get_items l) out n
        × ((errs' ≡ none) ↔ ((errs ≡ none) × (n ≡ 0)))
  unfolding list
  list_returns namespace w w' errs l answer objects =
      let (p, q) = known_of_found c.Value cl.descriptor typ s known found in
      let (items, e) = new_collection_known s.type p in
      let ((out, errs'), r) = convert_items_total c nil_map s (get_items l) [] errs objects in
      let (es, n, d, o, i) = convert_items_lem c nil_map s (get_items l) [] out errs errs' r in
      (
        out,
        errs',
        n,
        rw (found, list, e, answer items e, r),
        subst (λ x. Converted c nil_map s (get_items l) x n) (sym o) d,
        i,
      )
