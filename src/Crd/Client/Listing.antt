-- ===== src/Crd/Client/Listing.antt =====
-- What a listing returns, and what one malformed object does to the broker's view.
use old_broker_repo.Prelude.{
  ℕ, zero, suc, List, [], ◌∷◌, ◌++◌, Option, none, some, Error, ok, err, ◌≡◌, ◌↔◌, arith, inl, inr,
  Result-cases, concat_assoc, append, ◌∙◌, Memᴰ, refl, ap, sym,
}
use mathlib.Core.List.{append-nil}
use old_broker_repo.Config.Resource.{Entry}
use old_broker_repo.Config.Codec.{Codec}
use old_broker_repo.Config.Schema.{Schema}
use old_broker_repo.Crd.Objects.{IstioKind}
use old_broker_repo.Crd.Conversion.{convert_object}
use old_broker_repo.Crd.Client.{convert_items}

module _ {Message : Type 0} (c : Codec Message) (nil_map : c.Value) (s : Schema Message) where
  -- The entries of the items that can be converted, in order, and the number of the others.
  pub data Converted : List (Option (IstioKind c.Value)) → List (Entry Message) → ℕ → Type 0 where
    done : Converted [] [] zero
    good :
        {item : Option (IstioKind c.Value)} {items : List (Option (IstioKind c.Value))}
        {e : Entry Message} {es : List (Entry Message)} {n : ℕ}
        → convert_object c nil_map s item ≡ ok e
        → Converted items es n
        → Converted (item ∷ items) (e ∷ es) n
    bad :
        {item : Option (IstioKind c.Value)} {items : List (Option (IstioKind c.Value))} {x : Error}
        {es : List (Entry Message)} {n : ℕ}
        → convert_object c nil_map s item ≡ err x
        → Converted items es n
        → Converted (item ∷ items) es (suc n)

  -- What the loop adds to `out` and `errs`.
  abbrev Adds :
      List (Option (IstioKind c.Value))
      → List (Entry Message)
      → Option Error
      → List (Entry Message)
      → Option Error
      → Type 0
  Adds items out errs out' errs' =
      (es : List (Entry Message)) × (n : ℕ) × Converted items es n
      × (out' ≡ out ++ es)
      × ((errs' ≡ none) ↔ ((errs ≡ none) × (n ≡ zero)))

  module _ {item : Option (IstioKind c.Value)} {items : List (Option (IstioKind c.Value))}
      (out : List (Entry Message)) {out' : List (Entry Message)} (errs : Option Error)
      {errs' : Option Error} where
    Adds-good :
        {e : Entry Message}
        → convert_object c nil_map s item ≡ ok e
        → Adds items (out ++ e ∷ []) errs out' errs'
        → Adds (item ∷ items) out errs out' errs'
    Adds-good {e} p (es, n, d, q, r) = (e ∷ es, n, good p d, q ∙ concat_assoc out e es, r)

    Adds-bad :
        {x : Error}
        → convert_object c nil_map s item ≡ err x
        → Adds items out (some (append errs (some x))) out' errs'
        → Adds (item ∷ items) out errs out' errs'
    Adds-bad p (es, n, d, q, r) = (es, suc n, bad p d, q, ground arith)

  -- The loop appends what it converts, and has an error exactly if it began with one or an item
  -- could not be converted.
  pub convert_items_lem :
      (items : List (Option (IstioKind c.Value))) (out out' : List (Entry Message))
      (errs errs' : Option Error)
      → convert_items c nil_map s items out errs ≡ ok (out', errs')
      → Adds items out errs out' errs'
  unfolding convert_items
  convert_items_lem [] out out' errs errs' h =
      ([], zero, done, ground (arith, append-nil out), ground arith)
  convert_items_lem (item ∷ items) out out' errs errs' h =
      elim (Result-cases (convert_object c nil_map s item)) [
        | inl (e, p) ↦
            Adds-good out errs p
              (convert_items_lem items (out ++ e ∷ []) out' errs errs' (rw (p, convert_items) at h))
        | inr (inl (x, p)) ↦ Adds-bad out errs p (
            convert_items_lem items out out' (some (append errs (some x))) errs'
              (rw (p, convert_items) at h))
        | inr (inr p) ↦ cc (rw (p, convert_items) at h)
      ]

  -- An entry is returned exactly if it is an item's.
  pub Converted-mem :
      (items : List (Option (IstioKind c.Value))) (es : List (Entry Message)) (n : ℕ)
      (e : Entry Message)
      → Converted items es n
      → Memᴰ e es
      → (item : Option (IstioKind c.Value)) × Memᴰ item items
        × (convert_object c nil_map s item ≡ ok e)
  Converted-mem [] [] n e d m = elim m [ ]
  Converted-mem [] (x ∷ es) n e d m = elim d [ ]
  Converted-mem (item ∷ items) (x ∷ es) n e (Converted.good p d) (Memᴰ.head q) =
      (item, Memᴰ.head refl, p ∙ ap ok (sym q))
  Converted-mem (item ∷ items) (x ∷ es) n e (Converted.good p d) (Memᴰ.tail m) =
      let (i, k, q) = Converted-mem items es n e d m in (i, Memᴰ.tail k, q)
  Converted-mem (item ∷ items) es (suc n) e (Converted.bad p d) m =
      let (i, k, q) = Converted-mem items es n e d m in (i, Memᴰ.tail k, q)

  pub mem-Converted :
      (items : List (Option (IstioKind c.Value))) (es : List (Entry Message)) (n : ℕ)
      (e : Entry Message) (item : Option (IstioKind c.Value))
      → Converted items es n
      → Memᴰ item items
      → convert_object c nil_map s item ≡ ok e
      → Memᴰ e es
  mem-Converted [] es n e item d m r = elim m [ ]
  mem-Converted (i ∷ items) (x ∷ es) n e item (Converted.good p d) (Memᴰ.head q) r =
      Memᴰ.head (ground arith)
  mem-Converted (i ∷ items) (x ∷ es) n e item (Converted.good p d) (Memᴰ.tail m) r =
      Memᴰ.tail (mem-Converted items es n e item d m r)
  mem-Converted (i ∷ items) es (suc n) e item (Converted.bad p d) (Memᴰ.head q) r = ground arith
  mem-Converted (i ∷ items) es (suc n) e item (Converted.bad p d) (Memᴰ.tail m) r =
      mem-Converted items es n e item d m r

  -- With no malformed item nothing is left out.
  pub Converted-all :
      (items : List (Option (IstioKind c.Value))) (es : List (Entry Message)) (n : ℕ)
      → Converted items es n
      → ((item : Option (IstioKind c.Value))
          → Memᴰ item items
          → (e : Entry Message) × (convert_object c nil_map s item ≡ ok e))
      → n ≡ 0
  Converted-all [] es n Converted.done h = refl
  Converted-all (i ∷ items) (x ∷ es) n (Converted.good p d) h =
      Converted-all items es n d (λ item m. h item (Memᴰ.tail m))
  Converted-all (i ∷ items) es (suc n) (Converted.bad p d) h =
      let (e, q) = h i (Memᴰ.head refl) in cc

  pub Converted-total :
      (items : List (Option (IstioKind c.Value)))
      → ((item : Option (IstioKind c.Value))
          → Memᴰ item items
          → (e : Entry Message) × (convert_object c nil_map s item ≡ ok e))
      → (es : List (Entry Message)) × Converted items es 0
  Converted-total [] h = ([], Converted.done)
  Converted-total (i ∷ items) h =
      let (e, q) = h i (Memᴰ.head refl) in
      let (es, d) = Converted-total items (λ item m. h item (Memᴰ.tail m)) in
      (e ∷ es, Converted.good q d)
