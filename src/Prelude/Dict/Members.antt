-- ===== src/Prelude/Dict/Members.antt =====
-- The entries of a map with distinct keys, which is also listed in other orders.
use mathlib.Core.Path.{◌≡◌, sym, ap, ◌∙◌}
use mathlib.Core.Logic.{inl, inr}
use mathlib.Core.Option.{some, some-injective}
use mathlib.Core.List.{List, [], ◌∷◌, Permᴰ, Memᴰ}
use old_broker_repo.Prelude.Bytes.{Text, eq_refl, ◌==?◌}
use old_broker_repo.Prelude.Dict.{Dict, lookup, IsDistinct}
use old_broker_repo.Prelude.Lists.{All-mem}
use old_broker_repo.Prelude.Dict.Same.{pair-eq}

pub mem-perm : {A : Type 0} {x : A} {l l' : List A} → Permᴰ l l' → Memᴰ x l → Memᴰ x l'
mem-perm Permᴰ.nil m = m
mem-perm (Permᴰ.cons e p) (Memᴰ.head q) = Memᴰ.head (q ∙ e)
mem-perm (Permᴰ.cons e p) (Memᴰ.tail m) = Memᴰ.tail (mem-perm p m)
mem-perm (Permᴰ.swap e f) (Memᴰ.head q) = Memᴰ.tail (Memᴰ.head (q ∙ e))
mem-perm (Permᴰ.swap e f) (Memᴰ.tail (Memᴰ.head q)) = Memᴰ.head (q ∙ f)
mem-perm (Permᴰ.swap e f) (Memᴰ.tail (Memᴰ.tail m)) = Memᴰ.tail (Memᴰ.tail m)
mem-perm (Permᴰ.trans p q) m = mem-perm q (mem-perm p m)

module _ {V : Type 0} where
  pub lookup-mem : (k : Text) (v : V) (m : Dict V) → lookup k m ≡ some v → Memᴰ (k, v) m
  unfolding lookup
  lookup-mem k v [] h = cc
  lookup-mem k v ((j, u) ∷ m) h = elim (j ==? k) [
    | inl (p, e) ↦ Memᴰ.head (sym (pair-eq p (some-injective u v (rw e at h))))
    | inr (p, e) ↦ Memᴰ.tail (lookup-mem k v m (rw e at h))
  ]

  pub mem-lookup :
      (k : Text) (v : V) (m : Dict V) → IsDistinct m → Memᴰ (k, v) m → lookup k m ≡ some v
  unfolding lookup
  mem-lookup k v [] d m = elim m [ ]
  mem-lookup k v ((j, u) ∷ m) (f, d) (Memᴰ.head p) =
      rw (← ap (λ x. x.0) p, eq_refl k) (ap (λ x. some x.1) (sym p))
  mem-lookup k v ((j, u) ∷ m) (f, d) (Memᴰ.tail h) = elim (j ==? k) [
    | inl (p, e) ↦ absurd (All-mem _ m f h (sym p))
    | inr (p, e) ↦ rw e (mem-lookup k v m d h)
  ]
