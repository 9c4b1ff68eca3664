-- ===== src/Config/BrokerStore/Last.antt =====
-- An object whose key no other object has is the last one of its key.
use mathlib.Core.Option.{some-injective}
use old_broker_repo.Prelude.{
  All-mem, Text, List, [], ◌∷◌, ◌++◌, Option, some, ◌≡◌, ◌⊎◌, inl, inr, refl, ap, sym, ◌∙◌, All,
  Memᴰ, Option-cases, ◌==?◌, subst,
}
use old_broker_repo.Config.Resource.{Entry}
use old_broker_repo.Config.Store.{entry_key}
use old_broker_repo.Config.BrokerStore.Collect.{IsLast, IsLast-cons, Skips}

module _ {Message C : Type 0} (cast : Message → Option C) (k : Text) where
  -- No object writes to the key, or one of those that do is the last.
  IsLast-cases :
      (rs : List (Entry Message)) → All (Skips cast k) rs ⊎ ((c : C) × IsLast cast k rs c)
  IsLast-cases [] = inl tt
  IsLast-cases (r ∷ rs) = elim (IsLast-cases rs) [
    | inr (c, l) ↦ inr (c, IsLast-cons cast k r rs c l)
    | inl s ↦ elim (Option-cases (cast r.spec)) [
      | inl e ↦ inl (inr e, s)
      | inr (d, e) ↦ elim (entry_key r ==? k) [
        | inr (p, q) ↦ inl (inl p, s)
        | inl (p, q) ↦ inr (
          d,
          record {
            before = [];
            entry = r;
            after = rs;
            split = refl;
            keyed = p;
            content = e;
            later = s;
          },
        )
      ]
    ]
  ]

  not-Skips :
      (e : Entry Message) (c : C) (rs : List (Entry Message))
      → Memᴰ e rs
      → entry_key e ≡ k
      → cast e.spec ≡ some c
      → All (Skips cast k) rs
      → ⊥
  not-Skips e c rs m p q s = elim (All-mem (Skips cast k) rs s m) [
    | inl n ↦ n p
    | inr n ↦ cc (sym n ∙ q)
  ]

  middle_mem :
      (x : Entry Message) (before after : List (Entry Message)) → Memᴰ x (before ++ x ∷ after)
  middle_mem x [] after = Memᴰ.head refl
  middle_mem x (y ∷ before) after = Memᴰ.tail (middle_mem x before after)

  pub IsLast-mem : {rs : List (Entry Message)} {c : C} (l : IsLast cast k rs c) → Memᴰ l.entry rs
  IsLast-mem l = subst (Memᴰ l.entry) (sym l.split) (middle_mem l.entry l.before l.after)

  -- If all objects of the key are one, it is the last.
  pub only-IsLast :
      (e : Entry Message) (c : C) (rs : List (Entry Message))
      → Memᴰ e rs
      → entry_key e ≡ k
      → cast e.spec ≡ some c
      → ((x : Entry Message) → Memᴰ x rs → entry_key x ≡ k → x ≡ e)
      → IsLast cast k rs c
  only-IsLast e c rs m p q only = elim (IsLast-cases rs) [
    | inl s ↦ absurd (not-Skips e c rs m p q s)
    | inr (c', l) ↦
        let here = IsLast-mem l in
        let same = only l.entry here l.keyed in
        subst (IsLast cast k rs)
          (some-injective c' c (sym l.content ∙ ap (λ x. cast x.spec) same ∙ q)) l
  ]
