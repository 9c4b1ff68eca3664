-- ===== src/Tests/Typed.antt =====
-- The entry that is shown after its creation.
use old_broker_repo.Prelude.{codes, ok, some, ◌≡◌, ◌==◌, refl}
use old_broker_repo.Crd.Cluster.{creates, kept, view}
use old_broker_repo.Crd.Cluster.Refines.{Runs-Allows}
use old_broker_repo.Tests.World.{junk, codec, codec_laws}
use old_broker_repo.Tests.Api.{vacant}
use old_broker_repo.Tests.Api.Laws.{laws}
use old_broker_repo.Tests.Stored.{
  client, known, apart, checks, product, stored, created, class-IsTyped,
}

pub product_shown :
    view codec junk client laws stored
      (codes "service-class")
      (codes "productpage")
      (codes "default")
    ≡ some (kept product (codes "8"))
unfolding ◌==◌
product_shown =
    (Runs-Allows codec junk codec_laws client laws known apart checks
        (creates product (ok (codes "8"))) vacant stored
        (class-IsTyped product (codes "page") refl refl) created).1
      (codes "service-class") (codes "productpage") (codes "default")
