-- ===== src/Config/Descriptor/Lookup.antt =====
-- Which schema a lookup finds, and when it finds none.
use old_broker_repo.Prelude.{
  Text, List, [], ◌∷◌, ◌++◌, none, some, ◌≡◌, ◌≢◌, ◌↔◌, inl, inr, refl, arith, ◌==?◌, eq_iff, All,
  Memᴰ, ap, sym,
}
use old_broker_repo.Config.Schema.{Schema}
use old_broker_repo.Config.Descriptor.{Descriptor, types, get_by_type}

module _ {Message : Type 0} where
  -- The schema stands in the descriptor, has the type, and no schema before it does.
  record IsFirst (d : Descriptor Message) (name : Text) (s : Schema Message) : Type 0 where
    pub before : List (Schema Message)
    pub after : List (Schema Message)
    pub split : d ≡ before ++ s ∷ after
    pub typed : s.type ≡ name
    pub others : All (λ t. t.type ≢ name) before

  get_by_type_sound :
      (d : Descriptor Message) (name : Text) (s : Schema Message)
      → get_by_type d name ≡ some s
      → IsFirst d name s
  unfolding get_by_type
  get_by_type_sound [] name s h = cc
  get_by_type_sound (t ∷ d) name s h = elim (t.type ==? name) [
    | inl (p, e) ↦ record {
      before = [];
      after = d;
      split = ground arith;
      typed = ground arith;
      others = tt;
    }
    | inr (p, e) ↦
        let f = get_by_type_sound d name s (ground arith) in
        record {
          before = t ∷ f.before;
          after = f.after;
          split = ap (λ l. t ∷ l) f.split;
          typed = f.typed;
          others = (p, f.others);
        }
  ]

  get_by_type-append :
      (pre post : Descriptor Message) (s : Schema Message) (name : Text)
      → All (λ t. t.type ≢ name) pre
      → s.type ≡ name
      → get_by_type (pre ++ s ∷ post) name ≡ some s
  unfolding get_by_type
  get_by_type-append [] post s name h e = ground (arith, eq_iff s.type name)
  get_by_type-append (t ∷ pre) post s name (p, h) e =
      ground (arith, eq_iff t.type name, get_by_type-append pre post s name h e)

  -- A lookup by type finds a schema exactly if it stands in the descriptor, has the type, and no
  -- schema before it has.
  get_by_type_iff :
      (d : Descriptor Message) (name : Text) (s : Schema Message)
      → (get_by_type d name ≡ some s) ↔ IsFirst d name s
  get_by_type_iff d name s = (
    get_by_type_sound d name s,
    λ f. rw f.split (get_by_type-append f.before f.after s name f.others f.typed),
  )

  not_listed :
      (t : Schema Message) (d : Descriptor Message) (name : Text)
      → t.type ≢ name
      → (¬ Memᴰ name (types d))
      → ¬ Memᴰ name (types (t ∷ d))
  unfolding types
  not_listed t d name p h (Memᴰ.head e) = p (sym e)
  not_listed t d name p h (Memᴰ.tail m) = h m

  -- A lookup by type finds no schema exactly if the type is not among the types of the descriptor.
  get_by_type-none_iff :
      (d : Descriptor Message) (name : Text) → (get_by_type d name ≡ none) ↔ (¬ Memᴰ name (types d))
  unfolding get_by_type types
  get_by_type-none_iff [] name = ((λ h m. elim m [ ]), λ h. refl)
  get_by_type-none_iff (t ∷ d) name = elim (t.type ==? name) [
    | inl (p, e) ↦ ((λ h. ground arith), λ h. absurd (h (Memᴰ.head (sym p))))
    | inr (p, e) ↦
        let ih = get_by_type-none_iff d name in
        rw e ((λ h m. not_listed t d name p (ih.0 h) m), λ h. ih.1 (λ m. h (Memᴰ.tail m)))
  ]
