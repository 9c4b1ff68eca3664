-- ===== src/Tests/Api.antt =====
-- A server with room for one object.
pub mod Laws
pub mod Slots
use old_broker_repo.Prelude.{
  ℕ, Text, codes, List, [], ◌∷◌, Option, none, some, Error, foreign, ok, err, ◌≡◌, ◌≢◌, ◌⊎◌, inl,
  inr, Bool, true, false, refl, arith, ◌==◌, eq_refl, eq_iff, ◌&&◌, ◌||◌, if◌then◌else◌, Bool-cases,
  Memᴰ, subst, sym, ap, ◌∙◌,
}
use old_broker_repo.Crd.Objects.{IstioKind, IstioKindList, get_items}
use old_broker_repo.Crd.Client.{RestClient}
use old_broker_repo.Crd.Api.{
  Objects, Same, Sets, IsAnswerTo, IsWritten, IsReplaced, IsListing, ApiLaws,
}
use old_broker_repo.Tests.World.{TestMessage}

abbrev pub Object : Type 0
Object = IstioKind TestMessage

pub record Slot : Type 0 where
  pub namespace : Text
  pub resource : Text
  pub name : Text
  pub object : Object

abbrev pub Room : Type 0
Room = Option Slot

abbrev pub vacant : Room
vacant = none

abbrev pub is_at : Slot → Text → Text → Text → Bool
is_at x ns res n = x.namespace == ns && (x.resource == res && x.name == n)

abbrev pub held : Room → Objects TestMessage
held none ns res n = none
held (some x) ns res n = if is_at x ns res n then some x.object else none

-- The object at another revision.
abbrev pub at_revision : Text → Object → Object
at_revision r k = record k { object_meta = record (k.object_meta) { resource_version = r } }

abbrev pub refusal : Error
refusal = foreign (codes "refused")

abbrev pub Answer : Type 0
Answer = (Option Error × Object) × Room

abbrev pub fetch : Text → Text → Text → Object → Room → Answer
fetch ns res n k none = ((some refusal, k), none)
fetch ns res n k (some x) =
    if is_at x ns res n then ((none, x.object), some x) else ((some refusal, k), some x)

abbrev pub slot : Text → Text → Text → Object → Room
slot ns res n k = some (record { namespace = ns; resource = res; name = n; object = k })

abbrev pub place : Text → Text → Object → Object → Room → Answer
place ns res body k none =
    let made = at_revision (codes "8") body in
    ((none, made), slot ns res body.object_meta.name made)
place ns res body k (some x) = ((some refusal, k), some x)

abbrev pub is_current : Object → Object → Bool
is_current body old =
    body.object_meta.resource_version == []
    || body.object_meta.resource_version == old.object_meta.resource_version

abbrev pub replace : Text → Text → Text → Object → Object → Room → Answer
replace ns res n body k none = ((some refusal, k), none)
replace ns res n body k (some x) =
    let made = at_revision (0 ∷ x.object.object_meta.resource_version) body in
    if is_at x ns res n && is_current body x.object
    then ((none, made), slot ns res n made)
    else ((some refusal, k), some x)

abbrev pub remove : Text → Text → Text → Room → Option Error × Room
remove ns res n none = (some refusal, none)
remove ns res n (some x) = if is_at x ns res n then (none, none) else (some refusal, some x)

abbrev pub listed : Text → Text → Room → List (Option Object)
listed ns res none = []
listed ns res (some x) =
    if x.resource == res && (ns == [] || ns == x.namespace) then some x.object ∷ [] else []

abbrev pub listing : List (Option Object) → IstioKindList TestMessage
listing items = record { type_meta = record { kind = []; api_version = [] }; items = some items }

abbrev pub server : RestClient Room TestMessage
server = record {
  get_into = fetch;
  list_into = λ ns res l w. ((none, listing (listed ns res w)), w);
  post_into = place;
  put_into = replace;
  delete = remove;
}
