-- ===== src/Config/BrokerStore/Collect.antt =====
-- The loop that puts the listed objects into a map: the last object of each key stays.
use old_broker_repo.Prelude.{
  Text, List, [], ◌∷◌, ◌++◌, Option, none, some, ◌≡◌, ◌≢◌, ◌↔◌, ◌⊎◌, inl, inr, refl, arith, All,
  ◌==?◌, Option-cases, eq_iff, ◌∙◌, ap,
}
use old_broker_repo.Prelude.Dict.{Dict, lookup, insert, IsDistinct}
use old_broker_repo.Prelude.Dict.Laws.{lookup-insert, insert-IsDistinct}
use old_broker_repo.Config.Resource.{Entry}
use old_broker_repo.Config.Store.{entry_key}
use old_broker_repo.Config.BrokerStore.{collect}

module _ {Message C : Type 0} (cast : Message → Option C) where
  -- An object that does not write to the key.
  abbrev pub Skips : Text → Entry Message → Type 0
  Skips k r = (entry_key r ≢ k) ⊎ (cast r.spec ≡ none)

  -- The last of the objects with this key and a message of the type holds `c`.
  pub record IsLast (k : Text) (rs : List (Entry Message)) (c : C) : Type 0 where
    pub before : List (Entry Message)
    pub entry : Entry Message
    pub after : List (Entry Message)
    pub split : rs ≡ before ++ entry ∷ after
    pub keyed : entry_key entry ≡ k
    pub content : cast entry.spec ≡ some c
    pub later : All (Skips k) after

  pub collect-IsDistinct :
      (rs : List (Entry Message)) (out : Dict C) → IsDistinct out → IsDistinct (collect cast rs out)
  unfolding collect
  collect-IsDistinct [] out h = h
  collect-IsDistinct (r ∷ rs) out h = elim (Option-cases (cast r.spec)) [
    | inl e ↦ rw (e, collect) (collect-IsDistinct rs out h)
    | inr (c, e) ↦
        rw (e, collect)
          (collect-IsDistinct rs (insert (entry_key r) c out)
            (insert-IsDistinct (entry_key r) c out h))
  ]

  -- A map in which no later object writes to the key.
  lookup-collect-Skips :
      (k : Text) (rs : List (Entry Message)) (out : Dict C)
      → All (Skips k) rs
      → lookup k (collect cast rs out) ≡ lookup k out
  unfolding collect
  lookup-collect-Skips k [] out h = refl
  lookup-collect-Skips k (r ∷ rs) out (s, h) = elim (Option-cases (cast r.spec)) [
    | inl e ↦ rw (e, collect) (lookup-collect-Skips k rs out h)
    | inr (c, e) ↦
        rw (e, collect)
          (lookup-collect-Skips k rs (insert (entry_key r) c out) h
            ∙ ground (arith, lookup-insert (entry_key r) k c out, eq_iff (entry_key r) k))
  ]

  lookup-collect_last :
      (k : Text) (before after : List (Entry Message)) (r : Entry Message) (c : C) (out : Dict C)
      → entry_key r ≡ k
      → cast r.spec ≡ some c
      → All (Skips k) after
      → lookup k (collect cast (before ++ r ∷ after) out) ≡ some c
  unfolding collect
  lookup-collect_last k [] after r c out p q h =
      rw (q, collect)
        (lookup-collect-Skips k after (insert (entry_key r) c out) h
          ∙ ground (arith, lookup-insert (entry_key r) k c out, eq_iff (entry_key r) k))
  lookup-collect_last k (b ∷ before) after r c out p q h =
      lookup-collect_last k before after r c _ p q h

  pub IsLast-cons :
      (k : Text) (r : Entry Message) (rs : List (Entry Message)) (c : C)
      → IsLast k rs c
      → IsLast k (r ∷ rs) c
  IsLast-cons k r rs c f = record {
    before = r ∷ f.before;
    entry = f.entry;
    after = f.after;
    split = ap (λ l. r ∷ l) f.split;
    keyed = f.keyed;
    content = f.content;
    later = f.later;
  }

  -- One object, before objects that do not write to the key.
  IsLast-or_before :
      (k : Text) (r : Entry Message) (rs : List (Entry Message)) (out : Dict C) (c : C)
      → lookup k (elim (cast r.spec) [ none ↦ out | some d ↦ insert (entry_key r) d out ]) ≡ some c
      → All (Skips k) rs
      → IsLast k (r ∷ rs) c ⊎ ((lookup k out ≡ some c) × All (Skips k) (r ∷ rs))
  IsLast-or_before k r rs out c h s = elim (Option-cases (cast r.spec)) [
    | inl e ↦ inr (ground arith, (inr e, s))
    | inr (d, e) ↦ elim (entry_key r ==? k) [
      | inl (p, q) ↦ inl (record {
        before = [];
        entry = r;
        after = rs;
        split = refl;
        keyed = p;
        content = ground (arith, lookup-insert (entry_key r) k d out);
        later = s;
      })
      | inr (p, q) ↦ inr (ground (arith, lookup-insert (entry_key r) k d out), (inl p, s))
    ]
  ]

  -- What a key holds after the loop comes from its last object, or was there before the loop.
  lookup-collect_sound :
      (k : Text) (rs : List (Entry Message)) (out : Dict C) (c : C)
      → lookup k (collect cast rs out) ≡ some c
      → IsLast k rs c ⊎ ((lookup k out ≡ some c) × All (Skips k) rs)
  unfolding collect
  lookup-collect_sound k [] out c h = inr (h, tt)
  lookup-collect_sound k (r ∷ rs) out c h = elim (lookup-collect_sound k rs _ c h) [
    | inl f ↦ inl (IsLast-cons k r rs c f)
    | inr (p, s) ↦ IsLast-or_before k r rs out c p s
  ]

  -- After the loop a key holds `c` exactly if its last object does.
  pub lookup-collect_iff :
      (k : Text) (rs : List (Entry Message)) (c : C)
      → (lookup k (collect cast rs []) ≡ some c) ↔ IsLast k rs c
  unfolding lookup
  lookup-collect_iff k rs c = (
    λ h. elim (lookup-collect_sound k rs [] c h) [ inl f ↦ f | inr (p, s) ↦ cc ],
    λ f. rw f.split (lookup-collect_last k f.before f.after f.entry c [] f.keyed f.content f.later),
  )
