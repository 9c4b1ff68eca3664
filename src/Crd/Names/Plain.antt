-- ===== src/Crd/Names/Plain.antt =====
-- A resource name is its source without the dashes.
use old_broker_repo.Prelude.{
  ℕ, Text, [], ◌∷◌, ◌≡◌, ◌≢◌, ◌↔◌, refl, arith, inl, inr, Bool-cases, byte_eq, byte_eq_iff, subst,
}
use old_broker_repo.Crd.Names.{dash, resource_name}

-- `s` is `r`, which has no dash, with dashes put in anywhere.
pub data Dashed : Text → Text → Type 0 where
  nil : Dashed [] []
  keep : {c : ℕ} {r s : Text} → c ≢ dash → Dashed r s → Dashed (c ∷ r) (c ∷ s)
  extra : {c : ℕ} {r s : Text} → c ≡ dash → Dashed r s → Dashed r (c ∷ s)

resource_name-Dashed : (s : Text) → Dashed (resource_name s) s
unfolding resource_name
resource_name-Dashed [] = nil
resource_name-Dashed (c ∷ s) = elim (Bool-cases (byte_eq c dash)) [
  | inl e ↦ rw e (extra ((byte_eq_iff c dash).0 e) (resource_name-Dashed s))
  | inr e ↦ rw e (keep (λ p. ground arith) (resource_name-Dashed s))
]

Dashed-resource_name : {r s : Text} → Dashed r s → resource_name s ≡ r
unfolding resource_name
Dashed-resource_name nil = refl
Dashed-resource_name (keep p d) = ground (arith, Dashed-resource_name d)
Dashed-resource_name (extra p d) = ground (arith, Dashed-resource_name d)

-- The resource name of a text is the one text with no dash from which the text comes by putting
-- dashes in.
pub resource_name_iff : (r s : Text) → (resource_name s ≡ r) ↔ Dashed r s
resource_name_iff r s =
    ((λ e. subst (λ x. Dashed x s) e (resource_name-Dashed s)), Dashed-resource_name)
