-- ===== src/Mock/Checks/Map/Samples.antt =====
-- What the check of a map sends to the store, and stores that do not panic at it.
use old_broker_repo.Prelude.{
  ℕ, zero, suc, Text, codes, List, [], ◌∷◌, ◌++◌, Option, Error, ok, panic, ◌⊎◌, inl, inr, ◌≡◌, ◌≢◌,
  refl, All, Bool-cases, byte_eq,
}
use old_broker_repo.Config.Resource.{Entry}
use old_broker_repo.Config.Store.{Store}
use old_broker_repo.Mock.{Fakes, FakeConfig, make, make_with, at_revision, itoa}
use old_broker_repo.Mock.Checks.Map.{Numbered, put, value_at, elements_from, zero_entry, updated}

module _ {Message : Type 0} (fakes : Fakes Message) where
  -- What the check sends: an entry with a fake message, or an entry with no type.
  abbrev pub IsSample : Entry Message → Type 0
  IsSample e = ((m : FakeConfig) × (e.spec ≡ fakes.fake m)) ⊎ (e.type ≡ [])

  abbrev pub AreSamples : Numbered (Entry Message) → Type 0
  AreSamples = All (λ p. IsSample p.1)

  pub put-AreSamples :
      (i : ℕ) (e : Entry Message) (elts : Numbered (Entry Message))
      → IsSample e
      → AreSamples elts
      → AreSamples (put i e elts)
  unfolding put
  put-AreSamples i e [] p h = (p, tt)
  put-AreSamples i e ((j, u) ∷ elts) p (q, h) = elim (Bool-cases (byte_eq i j)) [
    | inl b ↦ rw b (p, h)
    | inr b ↦ rw b (q, put-AreSamples i e elts p h)
  ]

  pub value_at-IsSample :
      (i : ℕ) (elts : Numbered (Entry Message))
      → AreSamples elts
      → IsSample (value_at (zero_entry fakes) i elts)
  unfolding value_at
  value_at-IsSample i [] h = inr refl
  value_at-IsSample i ((j, u) ∷ elts) (q, h) = elim (Bool-cases (byte_eq i j)) [
    | inl b ↦ rw b q
    | inr b ↦ rw b (value_at-IsSample i elts h)
  ]

  pub at_revision-IsSample :
      (e : Entry Message) (r : Text) → IsSample e → IsSample (at_revision e r)
  unfolding at_revision
  at_revision-IsSample e r h = h

  pub make_with-IsSample : (ns : Text) (i : ℕ) (v : Text) → IsSample (make_with fakes ns i v)
  unfolding make_with
  make_with-IsSample ns i v = inl (_, refl)

  pub updated-IsSample : (ns : Text) (i : ℕ) (r : Text) → IsSample (updated fakes ns i r)
  unfolding updated
  updated-IsSample ns i r =
      at_revision-IsSample (make_with fakes ns i (itoa i ++ codes "(updated)")) r
        (make_with-IsSample ns i (itoa i ++ codes "(updated)"))

  pub elements_from-AreSamples :
      (ns : Text) (left i : ℕ) (elts : Numbered (Entry Message))
      → AreSamples elts
      → AreSamples (elements_from fakes ns left i elts)
  unfolding elements_from make
  elements_from-AreSamples ns zero i elts h = h
  elements_from-AreSamples ns (suc left) i elts h =
      elements_from-AreSamples ns left (suc i) _
        (put-AreSamples i _ elts (make_with-IsSample ns i _) h)

  -- No call panics at a sample, and a reading returns.
  pub record IsCalm {W : Type 0} (store : Store W Message) : Type 0 where
    pub creates : (e : Entry Message) → IsSample e → (w : W) → (store.create e w).0 ≢ panic
    pub updates : (e : Entry Message) → IsSample e → (w : W) → (store.update e w).0 ≢ panic
    pub deletes : (t n ns : Text) (w : W) → (store.delete t n ns w).0 ≢ panic
    pub gets :
        (t n ns : Text) (w : W)
        → (e : Option (Entry Message)) × (w' : W) × (store.get t n ns w ≡ (ok e, w'))
    pub lists :
        (t ns : Text) (w : W)
        → (l : List (Entry Message) × Option Error) × (w' : W) × (store.list t ns w ≡ (ok l, w'))
