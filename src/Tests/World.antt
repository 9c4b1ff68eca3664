-- ===== src/Tests/World.antt =====
-- A small world: two kinds of messages, encodings that can be undone, and a map visited as it is built.
use old_broker_repo.Prelude.{
  ℕ, zero, suc, Text, codes, List, [], ◌∷◌, Bool, true, false, ◌&&◌, Option, none, some, Error,
  foreign, Result, ok, panic, ◌⊎◌, inl, inr, ◌≡◌, refl, arith, Bool-cases, Permᴰ, sym, ◌∙◌, ◌==◌,
  eq_iff, if◌then◌else◌,
}
use old_broker_repo.Prelude.Calls.{Ranging}
use old_broker_repo.Proto.{Messages}
use old_broker_repo.Config.Resource.{Meta, JsonConfig, Labels}
use old_broker_repo.Config.Codec.{Codec, CodecLaws}

-- A service class with a name, a plan with a name that serves the service of that name, and a value
-- that has no encoding.
pub data TestMessage : Type 0 where
  class plan : Text → TestMessage
  junk : TestMessage

abbrev pub cast_class : TestMessage → Option Text
cast_class (class n) = some n
cast_class (plan n) = none
cast_class junk = none

abbrev pub cast_plan : TestMessage → Option Text
cast_plan (class n) = none
cast_plan (plan n) = some n
cast_plan junk = none

abbrev pub msgs : Messages
msgs = record {
  Message = TestMessage;
  ServiceClass = Text;
  ServicePlan = Text;
  CatalogEntry = Text;
  CatalogPlan = Text;
  as_service_class = cast_class;
  as_service_plan = cast_plan;
  get_entry = λ n. n;
  entry_name = λ n. n;
  entry_id = λ n. n;
  entry_description = λ n. n;
  get_plan = λ n. n;
  plan_name = λ n. n;
  plan_id = λ n. n;
  plan_description = λ n. n;
  get_services = λ n. n ∷ [];
}

abbrev pub message_name : TestMessage → Text
message_name (class n) = codes "istio.broker.v1.config.ServiceClass"
message_name (plan n) = codes "istio.broker.v1.config.ServicePlan"
message_name junk = []

abbrev pub message_type : Text → Option TestMessage
message_type name =
    if name == codes "istio.broker.v1.config.ServiceClass"
    then some (class [])
    else if name == codes "istio.broker.v1.config.ServicePlan"
    then some (plan [])
    else none

abbrev pub encode : TestMessage → Error ⊎ Text
encode (class n) = inr (zero ∷ n)
encode (plan n) = inr (suc zero ∷ n)
encode junk = inl (foreign (codes "no encoding"))

abbrev pub decode : Text → Error ⊎ TestMessage
decode [] = inl (foreign (codes "unexpected end"))
decode (zero ∷ n) = inr (class n)
decode (suc zero ∷ n) = inr (plan n)
decode (suc (suc c) ∷ n) = inl (foreign (codes "unexpected character"))

abbrev pub test_meta : Meta
test_meta = record {
  type = codes "service-class";
  name = codes "productpage";
  namespace = codes "default";
  istio_namespace = [];
  labels = [];
  annotations = [];
  resource_version = codes "7";
}

abbrev is_empty : Labels → Bool
is_empty [] = true
is_empty (x ∷ xs) = false

-- Only configurations with this metadata can be written.
abbrev is_test_meta : Meta → Bool
is_test_meta m =
    m.type == test_meta.type
    && m.name == test_meta.name
    && m.namespace == test_meta.namespace
    && m.istio_namespace == []
    && is_empty m.labels
    && is_empty m.annotations
    && m.resource_version == test_meta.resource_version

-- jsonpb panics at the value that has no encoding.
abbrev marshal : TestMessage → Result Text
marshal (class n) = ok (zero ∷ n)
marshal (plan n) = ok (suc zero ∷ n)
marshal junk = panic

abbrev pub codec : Codec TestMessage
codec = record {
  Value = TestMessage;
  message_type = message_type;
  marshal_to_string = marshal;
  unmarshal_string = λ js pb. decode js;
  json_unmarshal = decode;
  yaml2_marshal = encode;
  json_to_yaml = λ js. inr js;
  yaml_to_json = λ y. inr y;
  yaml_marshal =
      λ j. if is_test_meta j.meta then encode j.spec else inl (foreign (codes "cannot write"));
  yaml_unmarshal =
      λ y. elim (decode y) [ inl e ↦ inl e | inr m ↦ inr (record { meta = test_meta; spec = m }) ];
}

inr-injective : {x y : Text} → ◌≡◌ {A = Error ⊎ Text} (inr x) (inr y) → x ≡ y
inr-injective p = cc

is_test_meta_sound : (m : Meta) → is_test_meta m ≡ true → m ≡ test_meta
is_test_meta_sound m h = ground (
  arith,
  eq_iff m.type test_meta.type,
  eq_iff m.name test_meta.name,
  eq_iff m.namespace test_meta.namespace,
  eq_iff m.istio_namespace [],
  eq_iff m.resource_version test_meta.resource_version,
)

decode-encode : (m : TestMessage) (js : Text) → encode m ≡ inr js → decode js ≡ inr m
decode-encode (class n) js p = rw (← inr-injective p)
decode-encode (plan n) js p = rw (← inr-injective p)
decode-encode junk js p = cc

encode-decode : (js : Text) (m : TestMessage) → decode js ≡ inr m → encode m ≡ inr js
encode-decode [] m p = cc
encode-decode (zero ∷ n) m p = ground arith
encode-decode (suc zero ∷ n) m p = ground arith
encode-decode (suc (suc c) ∷ n) m p = cc

yaml_round_lem :
    (j : JsonConfig TestMessage) (y : Text)
    → codec.yaml_marshal j ≡ inr y
    → codec.yaml_unmarshal y ≡ inr j
yaml_round_lem j y h = elim (Bool-cases (is_test_meta j.meta)) [
  | inl e ↦
      let same = is_test_meta_sound j.meta e in ground (arith, decode-encode j.spec y (rw e at h))
  | inr e ↦ cc (rw e at h)
]

ok-injective : {x y : Text} → ◌≡◌ {A = Result Text} (ok x) (ok y) → x ≡ y
ok-injective p = cc

decode-marshal : (m : TestMessage) (js : Text) → marshal m ≡ ok js → decode js ≡ inr m
decode-marshal (class n) js p = rw (← ok-injective p)
decode-marshal (plan n) js p = rw (← ok-injective p)
decode-marshal junk js p = cc

pub codec_laws : CodecLaws codec message_name
codec_laws = record {
  jsonpb_round = λ {empty} {m} {js} p q. decode-marshal m js q;
  jsonpb_value = λ {js} {js'} {v} pb p q. p ∙ sym q;
  jsonpb_json = λ {m} {js} p. (m, decode-marshal m js p);
  yaml2_round = λ {js} {v} p. (js, js, encode-decode js v p, refl, p);
  yaml_round = λ {js} {v} p. (js, js, refl, refl, p);
  yaml_config_round = λ {j} {y} p. yaml_round_lem j y p;
}

pub perm_refl : {V : Type 0} (m : List (Text × V)) → Permᴰ m m
perm_refl [] = Permᴰ.nil
perm_refl (e ∷ m) = Permᴰ.cons refl (perm_refl m)

abbrev pub ranging : Ranging ℕ
ranging = record { visit = λ m w. (m, suc w); visit_perm = λ m w. perm_refl m }
