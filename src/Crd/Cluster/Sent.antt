-- ===== src/Crd/Cluster/Sent.antt =====
-- What is sent for an entry, and how the stored object is read back.
use old_broker_repo.Prelude.{
  Text, some, Result, ok, inl, inr, ◌≡◌, refl, arith, Result-cases, subst,
}
use old_broker_repo.Config.Resource.{Entry}
use old_broker_repo.Config.Codec.{Codec, CodecLaws}
use old_broker_repo.Config.Schema.{Schema, to_json_map, from_json_map}
use old_broker_repo.Config.Schema.Round.{from_json_map_value}
use old_broker_repo.Config.Descriptor.{Descriptor, get_by_type}
use old_broker_repo.Crd.Objects.{IstioKind, set_spec, set_object_meta}
use old_broker_repo.Crd.Objects.Copies.{new_object_known}
use old_broker_repo.Crd.Conversion.{convert_object, convert_config}
use old_broker_repo.Crd.Client.Total.{AreKnown, known_of_found}
use old_broker_repo.Crd.Api.{IsAnswerTo}
use old_broker_repo.Crd.Cluster.{kept, IsTyped, readable}

module _ {Message : Type 0} (c : Codec Message) (nil_map : c.Value) {message_name : Message → Text}
    (laws : CodecLaws c message_name) where
  -- A message that has a JSON map is read back from it.
  from_json_map-of :
      (s : Schema Message) (m : Message) (v : c.Value)
      → (s.message_name ≡ message_name m)
        × ((empty : Message) × (c.message_type (message_name m) ≡ some empty))
      → to_json_map c m ≡ ok v
      → from_json_map c s v ≡ ok m
  unfolding to_json_map
  from_json_map-of s m v (named, (empty, registered)) p =
      elim (Result-cases (c.marshal_to_string m)) [
        | inl (js, q) ↦ from_json_map_value c laws s registered named q v (ground arith)
        | inr (inl (x, q)) ↦ cc (rw q at p)
        | inr (inr q) ↦ cc (rw q at p)
      ]

  -- What is sent for an entry: its object, which names it, and which is read back as the entry.
  pub record IsSent (s : Schema Message) (e : Entry Message) (out : IstioKind c.Value)
      : Type 0 where
    pub name : out.object_meta.name ≡ e.name
    pub namespace : out.object_meta.namespace ≡ e.namespace
    pub revision : out.object_meta.resource_version ≡ e.resource_version
    pub back :
        (k : IstioKind c.Value)
        → IsAnswerTo out k
        → convert_object c nil_map s (some k) ≡ ok (kept e k.object_meta.resource_version)

  IsSent-of :
      (s : Schema Message) (e : Entry Message) (obj : IstioKind c.Value) (v : c.Value)
      → s.type ≡ e.type
      → from_json_map c s v ≡ ok e.spec
      → IsSent s e (
          set_spec
            (set_object_meta obj (record {
              name = e.name;
              namespace = e.namespace;
              resource_version = e.resource_version;
              labels = e.labels;
              annotations = e.annotations;
            }))
            (some v))
  unfolding set_spec set_object_meta convert_object
  IsSent-of s e obj v same p = record {
    name = refl;
    namespace = refl;
    revision = refl;
    back = λ k a. rw (a.spec, p, a.name, a.namespace, a.labels, a.annotations, same);
  }

  ok-injective :
      {x y : IstioKind c.Value} → ◌≡◌ {A = Result (IstioKind c.Value)} (ok x) (ok y) → x ≡ y
  ok-injective p = cc

  pub IsSent-convert_config :
      (d : Descriptor Message) (s : Schema Message) (e : Entry Message) (out : IstioKind c.Value)
      → AreKnown c.Value d
      → get_by_type d e.type ≡ some s
      → IsTyped c message_name d e
      → convert_config c nil_map s e ≡ ok out
      → IsSent s e out
  unfolding convert_config
  IsSent-convert_config d s e out known found typed h =
      let (t, same) = known_of_found c.Value d e.type s known found in
      let (obj, r) = new_object_known {Value = c.Value} s.type t in
      elim (Result-cases (to_json_map c e.spec)) [
        | inl (v, p) ↦
            let (named, registered, _) = typed s found in
            let back = from_json_map-of s e.spec v (named, registered) p in
            let made = rw (p, r) at h in
            subst (IsSent s e) (ok-injective made) (IsSent-of s e obj v same back)
        | inr (inl (x, p)) ↦ cc (rw p at h)
        | inr (inr p) ↦ cc (rw p at h)
      ]

  -- An entry that is read has the revision of its object.
  pub readable-revision :
      (s : Schema Message) (k : IstioKind c.Value) (x : Entry Message)
      → readable c nil_map (convert_object c nil_map s (some k)) ≡ some x
      → x.resource_version ≡ k.object_meta.resource_version
  unfolding convert_object
  readable-revision s k x h = ground arith
