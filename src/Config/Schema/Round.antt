-- ===== src/Config/Schema/Round.antt =====
-- Messages survive the conversions of a schema.
use old_broker_repo.Prelude.{Text, some, ◌≡◌, inr, ok, arith}
use old_broker_repo.Config.Codec.{Codec, CodecLaws}
use old_broker_repo.Config.Schema.{Schema, make, to_yaml, to_json_map, from_yaml, from_json_map}

module _ {Message : Type 0} (c : Codec Message) {message_name : Message → Text}
    (laws : CodecLaws c message_name) (b : Schema Message) {empty m : Message} {js : Text}
    (registered : c.message_type (message_name m) ≡ some empty)
    (named : b.message_name ≡ message_name m) (marshalled : c.marshal_to_string m ≡ ok js) where
  make_registered : make c b ≡ ok empty
  unfolding make
  make_registered = ground arith

  -- A text whose JSON form has the value of the message is read as the message.
  from_yaml_value :
      {v : c.Value} {y js' : Text}
      → c.json_unmarshal js ≡ inr v
      → c.yaml_to_json y ≡ inr js'
      → c.json_unmarshal js' ≡ inr v
      → from_yaml c b y ≡ ok m
  unfolding from_yaml
  from_yaml_value {v} {y} {js'} p q r =
      rw (make_registered, q, laws.jsonpb_value empty r p, laws.jsonpb_round registered marshalled)

  pub to_json_map_value : (v : c.Value) → c.json_unmarshal js ≡ inr v → to_json_map c m ≡ ok v
  unfolding to_json_map
  to_json_map_value v p = rw (marshalled, p)

  pub from_json_map_value : (v : c.Value) → c.json_unmarshal js ≡ inr v → from_json_map c b v ≡ ok m
  unfolding from_json_map
  from_json_map_value v p =
      let (y, js', q, r, t) = laws.yaml2_round p in rw (q, from_yaml_value p r t)

  -- A message of the schema's registered type that jsonpb can write has a JSON map, and reading
  -- that map by the schema gives the message back.
  pub from_json_map-to_json_map :
      (v : c.Value) × (to_json_map c m ≡ ok v) × (from_json_map c b v ≡ ok m)
  from_json_map-to_json_map =
      let (v, p) = laws.jsonpb_json marshalled in
      (v, to_json_map_value v p, from_json_map_value v p)

  -- The same for the YAML text of a message.
  from_yaml-to_yaml_message : (y : Text) × (to_yaml c m ≡ ok y) × (from_yaml c b y ≡ ok m)
  unfolding to_yaml
  from_yaml-to_yaml_message =
      let (v, p) = laws.jsonpb_json marshalled in
      let (y, js', q, r, t) = laws.yaml_round p in (y, rw (marshalled, q), from_yaml_value p r t)
