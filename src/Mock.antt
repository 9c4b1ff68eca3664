-- ===== src/Mock.antt =====
-- pkg/testing/mock/config.go: a configuration type for tests, and checks of a store.
pub mod Names
pub mod Checks
use old_broker_repo.Prelude.{
  ℕ, suc, Text, codes, List, [], ◌∷◌, ◌++◌, Bool, Option, none, some, Result, ok, err, panic,
  errorf, ◌==◌, if◌then◌else◌,
}
use old_broker_repo.Config.Resource.{Meta, Entry, Labels}
use old_broker_repo.Config.Schema.{Schema}
use old_broker_repo.Server.Address.{digits_from}

-- The messages of pkg/testing/mock/proto/fake_config.proto.
pub record Pair : Type 0 where
  pub key : Text
  pub value : Text

pub record FakeConfig : Type 0 where
  pub key : Text
  pub pairs : List Pair

-- The code that is generated of them and of the broker's messages, and `reflect.DeepEqual`.
pub record Fakes (Message : Type 0) : Type 0 where
  -- A pointer to the message as a `proto.Message`, and the type assertion.
  pub fake : FakeConfig → Message
  pub as_fake : Message → Option FakeConfig
  -- A nil interface.
  pub nil_message : Message
  -- `&brokerconfig.ServiceClass{…}` with an instance, a name, an id and a description, and
  -- `&brokerconfig.ServicePlan{…}` with a name, an id, a description and services.
  pub service_class : Text → Text → Text → Text → Message
  pub service_plan : Text → Text → Text → List Text → Message
  pub deep_equal : Entry Message → Entry Message → Bool
  pub deep_equal_spec : Message → Message → Bool

-- `strconv.Itoa(i)`; a number has no more digits than its value and one.
unfoldable pub itoa : ℕ → Text
unfolding digits_from
itoa i = digits_from (suc i) i []

-- `fmt.Sprintf("%s%d", "fake-config", i)`
unfoldable pub fake_name : ℕ → Text
unfolding itoa
fake_name i = codes "fake-config" ++ itoa i

-- The entry at a revision.
unfoldable pub at_revision : {Message : Type 0} → Entry Message → Text → Entry Message
at_revision a revision = record a { meta = record (a.meta) { resource_version = revision } }

module _ {Message : Type 0} (fakes : Fakes Message) where
  -- A message of another type panics.
  unfoldable pub validate_fake : Message → Result (Unit {0})
  validate_fake msg = elim (fakes.as_fake msg) [
    | none ↦ panic
    | some m ↦ if m.key == [] then err (errorf (codes "empty key") []) else ok tt
  ]

  unfoldable pub fake_config : Schema Message
  unfolding validate_fake
  fake_config = record {
    type = codes "fake-config";
    plural = codes "fake-configs";
    message_name = codes "proto.FakeConfig";
    additional_validate = some validate_fake;
  }

  -- A fake entry with a value in its pair.
  unfoldable pub make_with : Text → ℕ → Text → Entry Message
  unfolding fake_config fake_name
  make_with namespace i value =
      let name = fake_name i in
      record {
        meta = record {
          type = fake_config.type;
          name = name;
          namespace = namespace;
          istio_namespace = [];
          labels = (codes "key", name) ∷ [];
          annotations = (codes "annotationkey", name) ∷ [];
          resource_version = [];
        };
        spec =
            fakes.fake
              (record { key = name; pairs = record { key = codes "key"; value = value } ∷ [] });
      }

  unfoldable pub make : Text → ℕ → Entry Message
  unfolding make_with itoa
  make namespace i = make_with namespace i (itoa i)

  unfoldable pub compare : Entry Message → Entry Message → Bool
  unfolding at_revision
  compare a b = fakes.deep_equal (at_revision a []) (at_revision b [])
