-- ===== src/Tests/Accepts.antt =====
-- The check of the broker's configuration, on a client of an empty server.
use old_broker_repo.Prelude.{Bool, true, false, none, ◌==◌}
use old_broker_repo.Config.BrokerStore.{service_class, service_plan}
use old_broker_repo.Mock.{Fakes}
use old_broker_repo.Tests.World.{TestMessage, class, plan, junk}
use old_broker_repo.Tests.Shelf.{Shelf}

abbrev equal : TestMessage → TestMessage → Bool
equal (class a) (class b) = a == b
equal (class a) (plan b) = false
equal (class a) junk = false
equal (plan a) (class b) = false
equal (plan a) (plan b) = a == b
equal (plan a) junk = false
equal junk (class b) = false
equal junk (plan b) = false
equal junk junk = true

-- No fake message is one of the broker's.
abbrev fakes : Fakes TestMessage
fakes = record {
  fake = λ m. junk;
  as_fake = λ m. none;
  nil_message = junk;
  service_class = λ instance_name name id description. class name;
  service_plan = λ name id description services. plan name;
  deep_equal = λ a b. equal a.spec b.spec;
  deep_equal_spec = equal;
}
