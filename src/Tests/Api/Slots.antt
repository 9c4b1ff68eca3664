-- ===== src/Tests/Api/Slots.antt =====
-- The objects that are held tell the server with room for one.
use old_broker_repo.Prelude.{Text, none, some, ◌≡◌, true, arith}
use old_broker_repo.Tests.Api.{Object, Slot, Room, is_at, held, slot}
use old_broker_repo.Tests.Api.Laws.{is_at_sound}
use old_broker_repo.Tests.Api.{slot}

slot_of :
    (x : Slot) (ns res n : Text) (k : Object)
    → x.namespace ≡ ns
    → x.resource ≡ res
    → x.name ≡ n
    → x.object ≡ k
    → ◌≡◌ {A = Room} (some x) (slot ns res n k)
slot_of x ns res n k p q r e = cc

-- The objects that are held tell the server.
pub held_slot :
    (w : Room) (ns res n : Text) (k : Object) → held w ns res n ≡ some k → w ≡ slot ns res n k
held_slot none ns res n k h = cc
held_slot (some x) ns res n k h =
    let at : is_at x ns res n ≡ true = ground arith in
    let (p, q, r) = is_at_sound x ns res n at in
    let same : x.object ≡ k = ground arith in slot_of x ns res n k p q r same
