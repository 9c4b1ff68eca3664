-- ===== src/Prelude/Dict/Same.antt =====
-- Two maps with distinct keys that hold the same values are one map, listed in two orders.
use mathlib.Core.Path.{◌≡◌, refl, subst}
use mathlib.Core.Logic.{◌↔◌, inl, inr}
use mathlib.Core.Option.{some, some-injective}
use mathlib.Core.List.{[], ◌∷◌, Permᴰ}
use mathlib.Core.List.Permᴰ
use old_broker_repo.Prelude.Bytes.{Text, eq_refl, ◌==?◌}
use old_broker_repo.Prelude.Dict.{Dict, lookup, IsFresh, IsDistinct}
use old_broker_repo.Prelude.Dict.Laws.{lookup-fresh, perm-IsDistinct, lookup-perm}

module _ {V : Type 0} where
  abbrev pub SameLookups : Dict V → Dict V → Type 0
  SameLookups m n = (k : Text) (v : V) → (lookup k m ≡ some v) ↔ (lookup k n ≡ some v)

  pub pair-eq : {j k : Text} {u v : V} → j ≡ k → u ≡ v → ◌≡◌ {A = Text × V} (j, u) (k, v)
  pair-eq p q i = (p i, q i)

  lookup-cons : (k : Text) (v : V) (m : Dict V) → lookup k ((k, v) ∷ m) ≡ some v
  unfolding lookup
  lookup-cons k v m = rw (eq_refl k) refl

  -- The entry of a key, taken to the front.
  extract :
      (k : Text) (v : V) (n : Dict V) → lookup k n ≡ some v → (n' : Dict V) × Permᴰ n ((k, v) ∷ n')
  unfolding lookup
  extract k v [] h = cc
  extract k v ((j, u) ∷ n) h = elim (j ==? k) [
    | inl (p, e) ↦ (
      n,
      subst (λ x. Permᴰ ((j, u) ∷ n) (x ∷ n)) (pair-eq p (some-injective u v (rw e at h)))
          (Permᴰ.refl _),
    )
    | inr (p, e) ↦
        let (n', q) = extract k v n (rw e at h) in
        ((j, u) ∷ n', Permᴰ.trans (Permᴰ.cons refl q) (Permᴰ.swap refl refl))
  ]

  drop-SameLookups :
      (k : Text) (v : V) (m n : Dict V)
      → IsFresh k m
      → IsFresh k n
      → SameLookups ((k, v) ∷ m) ((k, v) ∷ n)
      → SameLookups m n
  unfolding lookup
  drop-SameLookups k v m n fm fn h j u = elim (k ==? j) [
    | inl (p, e) ↦ rw (← p, lookup-fresh k m fm, lookup-fresh k n fn) ((λ q. q), λ q. q)
    | inr (p, e) ↦ rw e at (h j u)
  ]

  perm-SameLookups :
      (m : Dict V) {n n' : Dict V} → Permᴰ n n' → IsDistinct n → SameLookups m n → SameLookups m n'
  perm-SameLookups m p d h k v = rw (← lookup-perm k p d) (h k v)

  pub SameLookups-perm : (m n : Dict V) → IsDistinct m → IsDistinct n → SameLookups m n → Permᴰ m n
  unfolding lookup
  SameLookups-perm [] [] dm dn h = Permᴰ.nil
  SameLookups-perm [] ((k, v) ∷ n) dm dn h = let q = (h k v).1 (lookup-cons k v n) in cc q
  SameLookups-perm ((k, v) ∷ m) n (f, dm) dn h =
      let (n', p) = extract k v n ((h k v).0 (lookup-cons k v m)) in
      let (f', dn') = perm-IsDistinct p dn in
      let same = drop-SameLookups k v m n' f f' (perm-SameLookups ((k, v) ∷ m) p dn h) in
      Permᴰ.trans (Permᴰ.cons refl (SameLookups-perm m n' dm dn' same)) (Permᴰ.symm p)
