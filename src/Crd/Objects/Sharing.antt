-- ===== src/Crd/Objects/Sharing.antt =====
-- The copies of template.go with pointers: an object holds a pointer to its spec map. The metadata are
-- values, since `ObjectMeta.DeepCopyInto` of the library copies its maps.
pub mod Shared
use old_broker_repo.Prelude.{
  ℕ, suc, ◌≤◌, Text, [], Bool, Option, none, some, byte_eq, if◌then◌else◌, ◌≡◌, ◌≢◌,
}
use old_broker_repo.Crd.Objects.{TypeMeta, ObjectMeta, IstioKind, empty_meta}

pub record Cell : Type 0 where
  pub type_meta : TypeMeta
  pub object_meta : ObjectMeta
  pub spec : Option ℕ

abbrev pub blank : Cell
blank = record {
  type_meta = record { kind = []; api_version = [] };
  object_meta = empty_meta;
  spec = none;
}

-- Objects and spec maps by address; addresses from `next` on are free.
pub record Heap (Value : Type 0) : Type 0 where
  pub next : ℕ
  pub objects : ℕ → Option Cell
  pub maps : ℕ → Option Value

module _ {Value : Type 0} where
  abbrev pub put_object : ℕ → Cell → Heap Value → Heap Value
  put_object p c h = record h { objects = λ q. if byte_eq p q then some c else h.objects q }

  -- What a caller does to a spec map that it holds.
  abbrev pub put_map : ℕ → Value → Heap Value → Heap Value
  put_map a v h = record h { maps = λ b. if byte_eq a b then some v else h.maps b }

  -- `*out = *in`, the parts again, and the pointer to the spec map; `none` for a pointer that is nil or
  -- dangling.
  unfoldable pub deep_copy_into : ℕ → ℕ → Heap Value → Option (Heap Value)
  deep_copy_into in' out h = elim (h.objects in') [
    | none ↦ none
    | some c ↦ elim (h.objects out) [
      | none ↦ none
      | some _ ↦ some (
          put_object out
            (record { type_meta = c.type_meta; object_meta = c.object_meta; spec = c.spec }) h)
    ]
  ]

  -- `out := new(IstioKind)` and the copy into it.
  unfoldable pub deep_copy : Option ℕ → Heap Value → Option (Option ℕ × Heap Value)
  unfolding deep_copy_into
  deep_copy none h = some (none, h)
  deep_copy (some in') h =
      let out = h.next in
      let fresh = put_object out blank (record h { next = suc out }) in
      elim (deep_copy_into in' out fresh) [ none ↦ none | some h' ↦ some (some out, h') ]

  -- The map behind a pointer, nil for nil.
  abbrev pub map_at : Heap Value → Option ℕ → Option Value
  map_at h none = none
  map_at h (some a) = h.maps a

  -- The object behind a pointer, with its map.
  abbrev pub object_at : Heap Value → ℕ → Option (IstioKind Value)
  object_at h p = elim (h.objects p) [
    | none ↦ none
    | some c ↦
        some
          (record { type_meta = c.type_meta; object_meta = c.object_meta; spec = map_at h c.spec })
  ]

  -- Nothing is stored from `next` on.
  abbrev pub IsFreshFrom : Heap Value → Type 0
  IsFreshFrom h = (p : ℕ) → h.next ≤ p → h.objects p ≡ none
