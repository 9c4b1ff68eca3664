-- ===== src/Prelude/Dict/Laws.antt =====
-- The laws of maps: lookup after insert, distinct keys, and maps listed in another order.
use mathlib.Core.Path.{◌≡◌, refl, sym, ◌∙◌, subst, ap}
use mathlib.Core.Logic.{◌≢◌, inl, inr}
use mathlib.Core.Option.{none, some}
use mathlib.Core.List.{List, [], ◌∷◌, Permᴰ}
use native.Mathlib.Omega.{arith}
use old_broker_repo.Prelude.Bytes.{Text, ◌==◌, eq_iff, ◌==?◌}
use old_broker_repo.Prelude.Tests.{if◌then◌else◌}
use old_broker_repo.Prelude.Lists.{All}
use old_broker_repo.Prelude.Dict.{Dict, lookup, insert, IsFresh, IsDistinct}

module _ {ℓ κ} {A : Type ℓ} (P : A → Type κ) where
  pub All-perm : {xs ys : List A} → Permᴰ xs ys → All P xs → All P ys
  All-perm Permᴰ.nil h = tt
  All-perm (Permᴰ.cons e p) (q, h) = (subst P e q, All-perm p h)
  All-perm (Permᴰ.swap e f) (q, (r, h)) = (subst P f r, (subst P e q, h))
  All-perm (Permᴰ.trans p q) h = All-perm q (All-perm p h)

module _ {V : Type 0} where
  -- A key holds what was put there last.
  pub lookup-insert :
      (key other : Text) (value : V) (entries : Dict V)
      → lookup other (insert key value entries)
        ≡ (if key == other then some value else lookup other entries)
  unfolding insert lookup
  lookup-insert key other value ((third, old) ∷ entries) =
      let ih = lookup-insert key other value entries in
      ground (arith, eq_iff third key, eq_iff third other, eq_iff key other)
  lookup-insert key other value [] = refl

  insert-IsFresh :
      (k j : Text) (v : V) (m : Dict V) → j ≢ k → IsFresh k m → IsFresh k (insert j v m)
  unfolding insert
  insert-IsFresh k j v [] p h = (p, tt)
  insert-IsFresh k j v ((i, w) ∷ m) p (q, h) = elim (i ==? j) [
    | inl (_, e) ↦ rw e (q, h)
    | inr (_, e) ↦ rw e (q, insert-IsFresh k j v m p h)
  ]

  pub insert-IsDistinct : (k : Text) (v : V) (m : Dict V) → IsDistinct m → IsDistinct (insert k v m)
  unfolding insert
  insert-IsDistinct k v [] h = (tt, tt)
  insert-IsDistinct k v ((j, w) ∷ m) (f, h) = elim (j ==? k) [
    | inl (_, e) ↦ rw e (f, h)
    | inr (p, e) ↦ rw e (insert-IsFresh j k v m (λ q. p (sym q)) f, insert-IsDistinct k v m h)
  ]

  pub lookup-fresh : (k : Text) (m : Dict V) → IsFresh k m → lookup k m ≡ none
  unfolding lookup
  lookup-fresh k [] h = refl
  lookup-fresh k ((j, v) ∷ m) (p, h) = ground (arith, eq_iff j k, lookup-fresh k m h)

  pub perm-IsDistinct : {m n : Dict V} → Permᴰ m n → IsDistinct m → IsDistinct n
  perm-IsDistinct Permᴰ.nil h = tt
  perm-IsDistinct (Permᴰ.cons {l₂} e p) (f, h) =
      (subst (λ x. IsFresh x.0 l₂) e (All-perm (λ y. y.0 ≢ _) p f), perm-IsDistinct p h)
  perm-IsDistinct (Permᴰ.swap {a} {a'} {l} e f) ((p, fa), (fb, h)) =
      subst (λ y. IsDistinct (a' ∷ y ∷ l)) e
        (subst (λ x. IsDistinct (x ∷ a ∷ l)) f (((λ q. p (sym q)), fb), (fa, h)))
  perm-IsDistinct (Permᴰ.trans p q) h = perm-IsDistinct q (perm-IsDistinct p h)

  -- The order in which a map with distinct keys is listed does not show in its lookups.
  pub lookup-perm : (k : Text) {m n : Dict V} → Permᴰ m n → IsDistinct m → lookup k m ≡ lookup k n
  unfolding lookup
  lookup-perm k Permᴰ.nil h = refl
  lookup-perm k (Permᴰ.cons {a} {b} {l₂} e p) (f, h) =
      rw (lookup-perm k p h) (ap (λ x. lookup k (x ∷ l₂)) e)
  lookup-perm k (Permᴰ.swap {a} {b} {a'} {l} e f) ((p, fa), (fb, h)) =
      subst (λ y. lookup k (a ∷ b ∷ l) ≡ lookup k (a' ∷ y ∷ l)) e
        (subst (λ x. lookup k (a ∷ b ∷ l) ≡ lookup k (x ∷ a ∷ l)) f
          (ground (arith, eq_iff a.0 k, eq_iff b.0 k)))
  lookup-perm k (Permᴰ.trans p q) h = lookup-perm k p h ∙ lookup-perm k q (perm-IsDistinct p h)
