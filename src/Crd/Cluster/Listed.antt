-- ===== src/Crd/Cluster/Listed.antt =====
-- A listing shows exactly what is there, where no object of the type is malformed.
use old_broker_repo.Prelude.{
  ℕ, Text, List, [], Option, none, some, Result, ok, err, panic, ◌≡◌, ◌≢◌, ◌↔◌, ◌⊎◌, Memᴰ, refl,
  arith, subst, sym, ◌∙◌, ap,
}
use old_broker_repo.Config.Resource.{Entry}
use old_broker_repo.Config.Codec.{Codec, CodecLaws}
use old_broker_repo.Config.Schema.{Schema, run_additional}
use old_broker_repo.Config.Descriptor.{get_by_type}
use old_broker_repo.Crd.Objects.{IstioKind, IstioKindList, get_items}
use old_broker_repo.Crd.Conversion.{convert_object}
use old_broker_repo.Crd.Client.{Client, plural_of}
use old_broker_repo.Crd.Client.Listing.{Converted, Converted-mem, mem-Converted, Converted-total}
use old_broker_repo.Crd.Client.Total.{AreKnown}
use old_broker_repo.Crd.Api.{IsListing, ApiLaws}
use old_broker_repo.Crd.Cluster.{AreApart, readable, shown, view}
use old_broker_repo.Crd.Cluster.Views.{view_found}
use old_broker_repo.Crd.Cluster.Clean.{IsCleanAt}

module _ {Message : Type 0} (c : Codec Message) (nil_map : c.Value) (s : Schema Message) where
  readable_ok :
      (r : Result (Entry Message)) (e : Entry Message) → readable c nil_map r ≡ some e → r ≡ ok e
  readable_ok (ok x) e h = cc
  readable_ok (err x) e h = cc
  readable_ok panic e h = cc

  shown-some :
      (o : Option (IstioKind c.Value)) (e : Entry Message)
      → shown c nil_map s o ≡ some e
      → (k : IstioKind c.Value) × (o ≡ some k) × (convert_object c nil_map s (some k) ≡ ok e)
  shown-some none e h = cc
  shown-some (some k) e h = (k, refl, readable_ok (convert_object c nil_map s (some k)) e h)

module _ {W Message : Type 0} (c : Codec Message) (nil_map : c.Value)
    {message_name : Message → Text} (laws : CodecLaws c message_name)
    (cl : Client W Message c.Value) (server : ApiLaws cl.dynamic)
    (known : AreKnown c.Value cl.descriptor) (apart : AreApart cl.descriptor)
    (checks : (typ : Text) (s : Schema Message) (m : Message)
      → get_by_type cl.descriptor typ ≡ some s
      → run_additional c s.additional_validate m ≢ panic)
    (t ns : Text) (s : Schema Message) (found : get_by_type cl.descriptor t ≡ some s) (w : W) where
  abbrev IsShownThere : Entry Message → Type 0
  IsShownThere e =
      (view c nil_map cl server w t e.name e.namespace ≡ some e) × ((ns ≡ []) ⊎ (ns ≡ e.namespace))

  module _ (clean : IsCleanAt c nil_map laws cl server known apart checks w)
      (l : IstioKindList c.Value) (listing : IsListing ns (plural_of s) (server.stored w) l) where
    -- Every item is an object, and is read as an entry that the view shows.
    item_lem :
        (item : Option (IstioKind c.Value))
        → Memᴰ item (get_items l)
        → (item ≢ none)
          × ((e : Entry Message) × (convert_object c nil_map s item ≡ ok e) × IsShownThere e)
    item_lem item m =
        let (ns', n', k, p, q, r) = listing.sound item m in
        let good = clean t n' ns' s k found q in
        let read : convert_object c nil_map s item ≡ ok good.entry =
          ap (convert_object c nil_map s) p ∙ good.read in
        let held : server.stored w good.entry.namespace (plural_of s) good.entry.name ≡ some k =
          rw (good.named, good.placed) q in
        let at = view_found c nil_map cl server w t good.entry.name good.entry.namespace s found in
        (
          (λ h. cc),
          (
            good.entry,
            read,
            (
              at ∙ ap (shown c nil_map s) held ∙ ap (readable c nil_map) good.read,
              rw good.placed r,
            ),
          ),
        )

    module _ (es : List (Entry Message)) (n : ℕ)
        (d : Converted c nil_map s (get_items l) es n) where
      listed_shown : (e : Entry Message) → Memᴰ e es → IsShownThere e
      listed_shown e m =
          let (item, k, p) = Converted-mem c nil_map s (get_items l) es n e d m in
          let (_, (x, q, r)) = item_lem item k in
          let same : x ≡ e = ground arith in subst IsShownThere same r

      shown_listed : (e : Entry Message) → IsShownThere e → Memᴰ e es
      shown_listed e (h, inside) =
          let at = view_found c nil_map cl server w t e.name e.namespace s found in
          let (k, p, q) = shown-some c nil_map s _ e (sym at ∙ h) in
          mem-Converted c nil_map s (get_items l) es n e (some k) d
            (listing.complete e.namespace e.name k p inside) q

    -- The entries of a listing are those that the view shows.
    pub listing-view :
        (es : List (Entry Message)) × Converted c nil_map s (get_items l) es 0
        × ((e : Entry Message)
            → Memᴰ e es ↔ (
                (view c nil_map cl server w t e.name e.namespace ≡ some e)
                × ((ns ≡ []) ⊎ (ns ≡ e.namespace))))
    listing-view =
        let (es, d) =
          Converted-total c nil_map s (get_items l)
            (λ item m. let (_, (e, q, _)) = item_lem item m in (e, q)) in
        (es, d, λ e. (listed_shown es 0 d e, shown_listed es 0 d e))
