-- ===== src/Tests/Sharing.antt =====
-- A heap with one object and its spec map.
use old_broker_repo.Prelude.{
  ℕ, codes, [], none, some, ok, byte_eq, if◌then◌else◌, ◌≡◌, ◌≢◌, refl, arith,
}
use old_broker_repo.Crd.Objects.{IstioKind, empty_meta}
use old_broker_repo.Crd.Objects
use old_broker_repo.Crd.Objects.Sharing.{Cell, Heap, put_map, deep_copy, object_at, IsFreshFrom}
use old_broker_repo.Crd.Objects.Sharing.Shared.{deep_copy-value, deep_copy-shares}

abbrev cell : Cell
cell = record {
  type_meta = record { kind = codes "ServiceClass"; api_version = [] };
  object_meta = empty_meta;
  spec = some 0;
}

abbrev heap : Heap ℕ
heap = record {
  next = 1;
  objects = λ q. if byte_eq 0 q then some cell else none;
  maps = λ a. if byte_eq 0 a then some 7 else none;
}

fresh : IsFreshFrom heap
fresh p h = ground arith

deep_copy-value_example :
    (q : ℕ) × (h : Heap ℕ) × (deep_copy (some 0) heap ≡ some (some q, h))
    × (q ≢ 0)
    × (Objects.deep_copy (object_at heap 0) ≡ ok (object_at h q))
    × (object_at h 0 ≡ object_at heap 0)
deep_copy-value_example = deep_copy-value heap fresh 0 cell refl

deep_copy-shares_example :
    (q : ℕ) × (h : Heap ℕ) × (copy : Cell) × (k : IstioKind ℕ) × (deep_copy (some 0) heap
      ≡ some (some q, h))
    × (h.objects q ≡ some copy)
    × (copy.spec ≡ some 0)
    × (object_at (put_map 0 8 h) 0 ≡ some k)
    × (k.spec ≡ some 8)
deep_copy-shares_example = deep_copy-shares heap fresh 0 cell refl 0 8 refl
