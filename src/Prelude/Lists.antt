-- ===== src/Prelude/Lists.antt =====
-- Predicates on all members of a list, and searches from its ends.
use mathlib.Core.Path.{◌≡◌, refl, ap, sym, subst}
use mathlib.Core.List.{List, [], ◌∷◌, ◌++◌, Memᴰ}

module _ {ℓ κ} {A : Type ℓ} (P : A → Type κ) where
  abbrev pub All : List A → Type κ
  All [] = Unit
  All (x ∷ xs) = P x × All xs

  pub All-append : (xs ys : List A) → All xs → All ys → All (xs ++ ys)
  All-append [] ys _ k = k
  All-append (x ∷ xs) ys (p, h) k = (p, All-append xs ys h k)

  pub All-of : (xs : List A) → ((x : A) → Memᴰ x xs → P x) → All xs
  All-of [] h = tt
  All-of (x ∷ xs) h = (h x (Memᴰ.head refl), All-of xs (λ y m. h y (Memᴰ.tail m)))

  pub All-mem : {x : A} (xs : List A) → All xs → Memᴰ x xs → P x
  All-mem [] h m = elim m [ ]
  All-mem (y ∷ ys) h (Memᴰ.head e) = subst P (sym e) h.0
  All-mem (y ∷ ys) h (Memᴰ.tail m) = All-mem ys h.1 m

module _ {ℓ} {A : Type ℓ} where
  pub concat_assoc : (xs : List A) (y : A) (ys : List A) → (xs ++ y ∷ []) ++ ys ≡ xs ++ y ∷ ys
  concat_assoc [] y ys = refl
  concat_assoc (x ∷ xs) y ys = ap (λ l. x ∷ l) (concat_assoc xs y ys)
