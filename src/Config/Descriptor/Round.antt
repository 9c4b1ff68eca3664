-- ===== src/Config/Descriptor/Round.antt =====
-- What an accepted configuration satisfies, and the way through YAML and back.
use old_broker_repo.Prelude.{Text, some, ◌≡◌, inl, inr, ok, arith, Option-cases}
use old_broker_repo.Config.Resource.{Entry, JsonConfig}
use old_broker_repo.Config.Codec.{Codec, CodecLaws}
use old_broker_repo.Config.Schema.{Schema, from_json_map, validate}
use old_broker_repo.Config.Schema.Round.{from_json_map_value, to_json_map_value}
use old_broker_repo.Config.Schema.Validation.{IsAcceptable, validate_iff}
use old_broker_repo.Config.Descriptor.{
  Descriptor, get_by_type, from_json_with, from_json, from_yaml, to_yaml,
}

module _ {Message : Type 0} (c : Codec Message) where
  -- The entry has the metadata of its source, and its message was decoded by a schema of the
  -- descriptor that has its type, and is acceptable to it.
  pub record IsDecoded (d : Descriptor Message) (json : JsonConfig c.Value) (e : Entry Message)
      : Type 0 where
    pub schema : Schema Message
    pub found : get_by_type d json.meta.type ≡ some schema
    pub meta : e.meta ≡ json.meta
    pub decoded : from_json_map c schema json.spec ≡ ok e.spec
    pub accepted : IsAcceptable c schema e.spec

  from_json_with_sound :
      (d : Descriptor Message) (json : JsonConfig c.Value) (e : Entry Message) (s : Schema Message)
      → get_by_type d json.meta.type ≡ some s
      → from_json_with c s json ≡ ok e
      → IsDecoded d json e
  unfolding from_json_with
  from_json_with_sound d json e s p h = record {
    schema = s;
    found = p;
    meta = ground arith;
    decoded = ground arith;
    accepted = (validate_iff c s e.spec).0 (ground arith);
  }

  -- A configuration that the descriptor accepts becomes an entry with the configuration's metadata,
  -- whose message was decoded by the descriptor's schema of that type and is acceptable to it.
  from_json_sound :
      (d : Descriptor Message) (json : JsonConfig c.Value) (e : Entry Message)
      → from_json c d json ≡ ok e
      → IsDecoded d json e
  unfolding from_json
  from_json_sound d json e h = elim (Option-cases (get_by_type d json.meta.type)) [
    | inl p ↦ cc (rw (p, from_json) at h)
    | inr (s, p) ↦ from_json_with_sound d json e s p (rw (p, from_json) at h)
  ]

  from_json_with-round :
      (s : Schema Message) (e : Entry Message) (v : c.Value)
      → from_json_map c s v ≡ ok e.spec
      → validate c s e.spec ≡ ok tt
      → from_json_with c s (record { meta = e.meta; spec = v }) ≡ ok e
  unfolding from_json_with
  from_json_with-round s e v p q = rw (p, q)

module _ {Message : Type 0} (c : Codec Message) {message_name : Message → Text}
    (laws : CodecLaws c message_name) (d : Descriptor Message) (e : Entry Message)
    {s : Schema Message} {empty : Message} {js : Text} (found : get_by_type d e.type ≡ some s)
    (accepted : validate c s e.spec ≡ ok tt)
    (registered : c.message_type (message_name e.spec) ≡ some empty)
    (named : s.message_name ≡ message_name e.spec)
    (marshalled : c.marshal_to_string e.spec ≡ ok js) where
  -- An entry whose type the descriptor has, whose schema accepts its message and is named after it,
  -- and whose message is of a registered type and can be written by jsonpb, is written as the YAML
  -- text of its metadata and its message's JSON value, and is read back from that text.
  pub from_yaml-to_yaml :
      (v : c.Value) (y : Text)
      → c.json_unmarshal js ≡ inr v
      → c.yaml_marshal (record { meta = e.meta; spec = v }) ≡ inr y
      → (to_yaml c d e ≡ ok y) × (from_yaml c d y ≡ ok e)
  unfolding to_yaml from_yaml from_json
  from_yaml-to_yaml v y p w =
      let q = from_json_map_value c laws s registered named marshalled v p in
      (
        rw (found, to_yaml, to_json_map_value c laws s registered named marshalled v p, w),
        rw (laws.yaml_config_round w, found, from_json) (from_json_with-round c s e v q accepted),
      )
