-- ===== src/Crd/Client/Hiding.antt =====
-- One object that cannot be converted empties the broker's view.
use old_broker_repo.Prelude.{
  ℕ, List, [], Option, none, some, Error, ok, err, ◌≡◌, ◌≢◌, arith, Memᴰ, codes, inl, inr,
  Option-cases,
}
use old_broker_repo.Prelude.Calls.{Ranging}
use old_broker_repo.Proto.{Messages}
use old_broker_repo.Config.Resource.{Entry}
use old_broker_repo.Config.Codec.{Codec}
use old_broker_repo.Config.Schema.{Schema}
use old_broker_repo.Config.Descriptor.{get_by_type}
use old_broker_repo.Config.BrokerStore.{service_classes}
use old_broker_repo.Config.BrokerStore.Views.{views_of_error}
use old_broker_repo.Crd.Objects.{IstioKind, IstioKindList, get_items, new_collection}
use old_broker_repo.Crd.Conversion.{convert_object}
use old_broker_repo.Crd.Client.{Client, plural_of, as_store}
use old_broker_repo.Crd.Client.Listing.{Converted, done, good, bad}
use old_broker_repo.Crd.Client.Total.{AreKnown, AreObjects, list_returns}

module _ {Message : Type 0} (c : Codec Message) (nil_map : c.Value) (s : Schema Message) where
  bad_counts :
      {item : Option (IstioKind c.Value)} {items : List (Option (IstioKind c.Value))}
      {es : List (Entry Message)} {n : ℕ} {x : Error}
      → Converted c nil_map s items es n
      → Memᴰ item items
      → convert_object c nil_map s item ≡ err x
      → n ≢ 0
  bad_counts done m p = elim m [ ]
  bad_counts (good q d) (Memᴰ.head e) p = cc
  bad_counts (good q d) (Memᴰ.tail m) p = bad_counts d m p
  bad_counts (bad q d) m p = omega arith

module _ {W : Type 0} (msgs : Messages) (ranging : Ranging W) (c : Codec msgs.Message)
    (nil_map : c.Value) (cl : Client W msgs.Message c.Value)
    (known : AreKnown c.Value cl.descriptor) {s : Schema msgs.Message}
    (found : get_by_type cl.descriptor (codes "service-class") ≡ some s) where
  -- If the server lists, with no error, objects of which one cannot be converted to a service
  -- class, then the broker shows no service classes at all, and reports no error.
  pub service_classes_hidden :
      (w w' : W) (l : IstioKindList c.Value) (item : Option (IstioKind c.Value)) (x : Error)
      → ((items : IstioKindList c.Value)
          → new_collection s.type ≡ ok items
          → cl.dynamic.list_into [] (plural_of s) items w ≡ ((none, l), w'))
      → AreObjects c nil_map s (get_items l)
      → Memᴰ item (get_items l)
      → convert_object c nil_map s item ≡ err x
      → service_classes msgs ranging (as_store c nil_map cl) w ≡ (ok [], w')
  unfolding as_store
  service_classes_hidden w w' l item x answer objects m p =
      let (out, errs, n, r, d, i) =
        list_returns c nil_map cl known (codes "service-class") found [] w w' none l answer
          objects in
      let ne = bad_counts c nil_map s d m p in
      elim (Option-cases errs) [
        | inl q ↦ absurd (ne (i.0 q).1)
        | inr (y, q) ↦ views_of_error msgs ranging (as_store c nil_map cl) out w w' y (rw (← q) r)
      ]
