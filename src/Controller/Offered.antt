-- ===== src/Controller/Offered.antt =====
-- Every service class that a client shows is offered.
use old_broker_repo.Prelude.{Text, some, panic, ◌≡◌, ◌≢◌, Memᴰ, ◌↔◌, map}
use old_broker_repo.Prelude.Dict.{Dict, IsDistinct}
use old_broker_repo.Prelude.Calls.{Ranging}
use old_broker_repo.Proto.{Messages}
use old_broker_repo.Config.Resource.{Entry}
use old_broker_repo.Config.Codec.{Codec, CodecLaws}
use old_broker_repo.Config.Schema.{Schema, run_additional}
use old_broker_repo.Config.Descriptor.{get_by_type}
use old_broker_repo.Config.Store.{entry_key}
use old_broker_repo.Config.BrokerStore.{service_class, service_plan}
use old_broker_repo.Osb.{Service, new_service, new_service_plan}
use old_broker_repo.Crd.Client.{Client}
use old_broker_repo.Crd.Client.Total.{AreKnown}
use old_broker_repo.Crd.Api.{ApiLaws}
use old_broker_repo.Crd.Cluster.{AreApart, view}
use old_broker_repo.Crd.Cluster.Reached.{Reach}

-- The service of a class, with each key of the plans once: of the plan entries for which `Shown` holds, it
-- has exactly those that name the class's key.
pub record IsOffered (msgs : Messages) (Shown : Entry msgs.Message → Type 0) (k : Text)
    (s : msgs.ServiceClass) (svc : Service) : Type 0 where
  pub made : svc ≡ record (new_service msgs s) { plans = svc.plans }
  pub name : svc.name ≡ msgs.entry_name (msgs.get_entry s)
  pub id : svc.id ≡ msgs.entry_id (msgs.get_entry s)
  pub description : svc.description ≡ msgs.entry_description (msgs.get_entry s)
  pub order : Dict msgs.ServicePlan
  pub distinct : IsDistinct order
  pub listed : svc.plans ≡ map (λ e. new_service_plan msgs e.1) order
  pub exact :
      (j : Text) (p : msgs.ServicePlan)
      → Memᴰ (j, p) order ↔ (
          (x : Entry msgs.Message) × Shown x
          × (entry_key x ≡ j)
          × (msgs.as_service_plan x.spec ≡ some p)
          × Memᴰ k (msgs.get_services p))

module _ {W : Type 0} (msgs : Messages) (ranging : Ranging W) (c : Codec msgs.Message)
    (nil_map : c.Value) {message_name : msgs.Message → Text} (laws : CodecLaws c message_name)
    (cl : Client W msgs.Message c.Value) (server : ApiLaws cl.dynamic)
    (known : AreKnown c.Value cl.descriptor) (apart : AreApart cl.descriptor)
    (checks : (typ : Text) (s : Schema msgs.Message) (m : msgs.Message)
      → get_by_type cl.descriptor typ ≡ some s
      → run_additional c s.additional_validate m ≢ panic)
    (w₀ : W) (reach : Reach c nil_map message_name cl server w₀) where
  abbrev class_type : Text
  class_type = (service_class msgs.Message).type

  abbrev plan_type : Text
  plan_type = (service_plan msgs.Message).type

  abbrev Shows : Text → Entry msgs.Message → Type 0
  Shows t x = view c nil_map cl server w₀ t x.name x.namespace ≡ some x
