-- ===== src/Controller/Cluster.antt =====
-- The catalog of a broker on a cluster: the controller over the broker store over the Kubernetes
-- client, as CreateServer of pkg/server/broker.go puts them together.
use old_broker_repo.Prelude.{ℕ, List, [], Option, none, some, ok, ◌≡◌, refl, arith, ◌∙◌, ap}
use old_broker_repo.Prelude.Dict.{Dict}
use old_broker_repo.Prelude.Calls.{Ranging}
use old_broker_repo.Proto.{Messages}
use old_broker_repo.Config.Resource.{Entry}
use old_broker_repo.Config.Codec.{Codec}
use old_broker_repo.Config.Schema.{Schema}
use old_broker_repo.Config.Descriptor.{get_by_type}
use old_broker_repo.Config.BrokerStore.{service_class, service_plan, make_broker_config_store}
use old_broker_repo.Osb.{Catalog}
use old_broker_repo.Crd.Objects.{IstioKind, IstioKindList, get_items}
use old_broker_repo.Crd.Conversion.{convert_object}
use old_broker_repo.Crd.Client.{Client, plural_of, list, as_store}
use old_broker_repo.Crd.Client.Listing.{Converted}
use old_broker_repo.Crd.Client.Total.{AreKnown, AreObjects, list_returns}
use old_broker_repo.Controller.{catalog}
use old_broker_repo.Controller.Offer.{IsCatalogOf}
use old_broker_repo.Controller.Faithful.{IsSteady, catalog-IsCatalogOf}

module _ {Message : Type 0} (c : Codec Message) (nil_map : c.Value) {s : Schema Message} where
  -- Items that can be converted are objects, and they have one list of entries.
  Converted-AreObjects :
      {items : List (Option (IstioKind c.Value))} {es : List (Entry Message)} {n : ℕ}
      → Converted c nil_map s items es n
      → AreObjects c nil_map s items
  unfolding convert_object
  Converted-AreObjects Converted.done = tt
  Converted-AreObjects (Converted.good {item} p d) = ((λ q. cc (rw q at p)), Converted-AreObjects d)
  Converted-AreObjects (Converted.bad {item} p d) = ((λ q. cc (rw q at p)), Converted-AreObjects d)

  Converted-unique :
      {items : List (Option (IstioKind c.Value))} {es es' : List (Entry Message)} {n n' : ℕ}
      → Converted c nil_map s items es n
      → Converted c nil_map s items es' n'
      → (es ≡ es') × (n ≡ n')
  Converted-unique Converted.done Converted.done = (refl, refl)
  Converted-unique (Converted.good p d) (Converted.good q e) =
      let (r, t) = Converted-unique d e in ground (arith, p, q)
  Converted-unique (Converted.good p d) (Converted.bad q e) = cc
  Converted-unique (Converted.bad p d) (Converted.good q e) = cc
  Converted-unique (Converted.bad p d) (Converted.bad q e) =
      let (r, t) = Converted-unique d e in ground (arith)

module _ {W : Type 0} (msgs : Messages) (ranging : Ranging W) (c : Codec msgs.Message)
    (nil_map : c.Value) (cl : Client W msgs.Message c.Value)
    (known : AreKnown c.Value cl.descriptor) where
  -- In a world of `Steady` the server answers a listing of the type with these objects, which stand
  -- for these entries, and leaves such a world.
  pub record IsListed (Steady : W → Type 0) (s : Schema msgs.Message) (l : IstioKindList c.Value)
      (es : List (Entry msgs.Message)) : Type 0 where
    pub found : get_by_type cl.descriptor s.type ≡ some s
    pub answer :
        (w : W)
        → Steady w
        → (w' : W) × ((items : IstioKindList c.Value)
            → cl.dynamic.list_into [] (plural_of s) items w ≡ ((none, l), w'))
          × Steady w'
    pub converted : Converted c nil_map s (get_items l) es 0

  list_of_server :
      {Steady : W → Type 0} {s : Schema msgs.Message} {l : IstioKindList c.Value}
      {es : List (Entry msgs.Message)}
      → IsListed Steady s l es
      → (w : W) → Steady w
      → (w' : W) × (list c nil_map cl s.type [] w ≡ (ok (es, none), w')) × Steady w'
  list_of_server {s} {l} {es} h w st =
      let (w', a, st') = h.answer w st in
      let (out, errs, n, r, d, i) =
        list_returns c nil_map cl known s.type h.found [] w w' none l (λ items p. a items)
          (Converted-AreObjects c nil_map h.converted) in
      let (p, q) = Converted-unique c nil_map d h.converted in
      let none_left : errs ≡ none = i.1 (refl, q) in
      (w', r ∙ ap (λ x. (ok (x, errs), w')) p ∙ ap (λ x. (ok (es, x), w')) none_left, st')

  -- At a client whose types are all known, and in worlds in which the server answers the listings
  -- of classes and plans with objects that can all be converted and visiting a map changes nothing
  -- of this, a catalog request through the controller, the broker store and the client gives a
  -- catalog with one service for each service class of the cluster, in some order, each with the
  -- class's name, id and description and with exactly the plans that name the class's key, each
  -- once.
  pub catalog-as_store-IsCatalogOf :
      {Steady : W → Type 0} {lc lp : IstioKindList c.Value}
      {classes plans : List (Entry msgs.Message)}
      → IsListed Steady (service_class msgs.Message) lc classes
      → IsListed Steady (service_plan msgs.Message) lp plans
      → ((V : Type 0) (m : Dict V) (w : W) → Steady w → Steady (ranging.visit m w).1)
      → (w : W) → Steady w
      → (cat : Catalog) × (w' : W) × (catalog msgs ranging
            (make_broker_config_store msgs ranging (as_store c nil_map cl))
            w
          ≡ (ok cat, w'))
        × Steady w'
        × IsCatalogOf msgs classes plans cat
  unfolding as_store
  catalog-as_store-IsCatalogOf {Steady} {lc} {lp} {classes} {plans} hc hp hv w st =
      let steady : IsSteady msgs ranging (as_store c nil_map cl) Steady classes plans = record {
        listed_classes = list_of_server hc;
        listed_plans = list_of_server hp;
        visited = hv;
      } in
      catalog-IsCatalogOf msgs ranging (as_store c nil_map cl) steady w st
