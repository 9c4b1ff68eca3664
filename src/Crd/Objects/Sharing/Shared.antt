-- ===== src/Crd/Objects/Sharing/Shared.antt =====
-- A copy has the contents of its source, and shares the source's spec map.
use old_broker_repo.Prelude.{
  ℕ, suc, Option, none, some, byte_eq, true, false, ◌≡◌, ◌≢◌, refl, arith, ok, sym, ◌∙◌,
}
use old_broker_repo.Crd.Objects.{IstioKind}
use old_broker_repo.Crd.Objects
use old_broker_repo.Crd.Objects.Sharing.{
  Cell, Heap, blank, put_object, put_map, deep_copy_into, deep_copy, map_at, object_at, IsFreshFrom,
}

byte_eq_refl : (n : ℕ) → byte_eq n n ≡ true
byte_eq_refl n = ground arith

byte_eq_ne : (a b : ℕ) → a ≢ b → byte_eq a b ≡ false
byte_eq_ne a b h = ground arith

module _ {Value : Type 0} (h : Heap Value) (fresh : IsFreshFrom h) (p : ℕ) (c : Cell)
    (found : h.objects p ≡ some c) where
  apart : h.next ≢ p
  apart e = cc (sym (fresh p (omega arith)) ∙ found)

  -- The heap after the copy.
  abbrev pub copied : Heap Value
  copied =
      put_object h.next
        (record { type_meta = c.type_meta; object_meta = c.object_meta; spec = c.spec })
        (put_object h.next blank (record h { next = suc h.next }))

  deep_copy_lem : deep_copy (some p) h ≡ some (some h.next, copied)
  unfolding deep_copy deep_copy_into
  deep_copy_lem =
      rw (deep_copy, deep_copy_into, byte_eq_ne h.next p apart, found, byte_eq_refl h.next)

  copied_at : copied.objects h.next ≡ some c
  copied_at = rw (byte_eq_refl h.next)

  copied_source : copied.objects p ≡ some c
  copied_source = rw (byte_eq_ne h.next p apart, found)

  object_of :
      (h' : Heap Value) (q : ℕ)
      → h'.objects q ≡ some c
      → object_at h' q
        ≡ some (record {
          type_meta = c.type_meta;
          object_meta = c.object_meta;
          spec = map_at h' c.spec;
        })
  object_of h' q e = rw (object_at, e)

  map_kept : (s : Option ℕ) → map_at copied s ≡ map_at h s
  map_kept none = refl
  map_kept (some a) = refl

  -- In a heap in which an address holds an object and those from the next free one on hold none,
  -- the deep copy of the object is at another address and has, with its spec map, the contents that
  -- the copy of objects as values gives, and the source's contents stay as they are.
  pub deep_copy-value :
      (q : ℕ) × (h' : Heap Value) × (deep_copy (some p) h ≡ some (some q, h'))
      × (q ≢ p)
      × (Objects.deep_copy (object_at h p) ≡ ok (object_at h' q))
      × (object_at h' p ≡ object_at h p)
  unfolding Objects.deep_copy Objects.deep_copy_into
  deep_copy-value = (
    h.next,
    copied,
    deep_copy_lem,
    apart,
    rw (object_of h p found, object_of copied h.next copied_at, map_kept c.spec),
    rw (object_of h p found, object_of copied p copied_source, map_kept c.spec),
  )

  -- In such a heap, the deep copy of an object with a spec map holds a pointer to the same map: a
  -- write to the map through the copy is seen in the source.
  pub deep_copy-shares :
      (a : ℕ) (v : Value)
      → c.spec ≡ some a
      → (q : ℕ) × (h' : Heap Value) × (copy : Cell) × (k : IstioKind Value) × (deep_copy (some p) h
          ≡ some (some q, h'))
        × (h'.objects q ≡ some copy)
        × (copy.spec ≡ some a)
        × (object_at (put_map a v h') p ≡ some k)
        × (k.spec ≡ some v)
  deep_copy-shares a v e = (
    h.next,
    copied,
    c,
    record {
      type_meta = c.type_meta;
      object_meta = c.object_meta;
      spec = map_at (put_map a v copied) c.spec;
    },
    deep_copy_lem,
    copied_at,
    e,
    object_of (put_map a v copied) p copied_source,
    rw (e, byte_eq_refl a),
  )
