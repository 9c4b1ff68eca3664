-- ===== src/Tests/Shelf.antt =====
-- A server with room for every object, which answers no listing.
use old_broker_repo.Prelude.{
  Text, codes, [], ◌∷◌, Option, none, some, Error, ◌≡◌, ◌≢◌, ◌⊎◌, inl, inr, Bool, true, false, refl,
  ◌==◌, eq_refl, ◌&&◌, ◌||◌, if◌then◌else◌, Bool-cases, ap, ◌∙◌,
}
use mathlib.Core.Option.{some-injective}
use old_broker_repo.Config.Resource.{Entry}
use old_broker_repo.Config.BrokerStore.{broker_config_types}
use old_broker_repo.Crd.Objects.{IstioKindList}
use old_broker_repo.Crd.Client.{Client, RestClient, delete}
use old_broker_repo.Crd.Api.{Objects, Same, Sets, IsWritten, IsReplaced, IsListing, ApiLaws}
use old_broker_repo.Crd.Cluster.{kept, view}
use old_broker_repo.Crd.Cluster.Reached.{Reach, start}
use old_broker_repo.Crd.Cluster.Available.{IsAvailable}
use old_broker_repo.Tests.World.{TestMessage, junk, codec, message_name}
use old_broker_repo.Tests.Api.{Object, at_revision, is_current, refusal}
use old_broker_repo.Tests.Api.Laws.{made-IsAnswerTo, longer-ne, current_sound}
use old_broker_repo.Tests.Stored.{product}

abbrev pub Shelf : Type 0
Shelf = Objects TestMessage

abbrev set : Text → Text → Text → Option Object → Shelf → Shelf
set ns res n v f a b d = if ns == a && (res == b && n == d) then v else f a b d

abbrev fetched : Option Object → Object → Option Error × Object
fetched none k = (some refusal, k)
fetched (some x) k = (none, x)

abbrev Answer : Type 0
Answer = (Option Error × Object) × Shelf

abbrev placed : Option Object → Text → Text → Object → Object → Shelf → Answer
placed (some x) ns res body k f = ((some refusal, k), f)
placed none ns res body k f =
    let made = at_revision (codes "8") body in
    ((none, made), set ns res body.object_meta.name (some made) f)

abbrev swapped : Option Object → Text → Text → Text → Object → Object → Shelf → Answer
swapped none ns res n body k f = ((some refusal, k), f)
swapped (some x) ns res n body k f =
    let made = at_revision (0 ∷ x.object_meta.resource_version) body in
    if is_current body x then ((none, made), set ns res n (some made) f) else ((some refusal, k), f)

abbrev removed : Option Object → Text → Text → Text → Shelf → Option Error × Shelf
removed none ns res n f = (some refusal, f)
removed (some x) ns res n f = (none, set ns res n none f)

abbrev shelf : RestClient Shelf TestMessage
shelf = record {
  get_into = λ ns res n k f. (fetched (f ns res n) k, f);
  list_into = λ ns res l f. ((some refusal, l), f);
  post_into = λ ns res body k f. placed (f ns res body.object_meta.name) ns res body k f;
  put_into = λ ns res n body k f. swapped (f ns res n) ns res n body k f;
  delete = λ ns res n f. removed (f ns res n) ns res n f;
}

pub placed_lem :
    (o : Option Object) (ns res : Text) (body k : Object) (f : Shelf)
    → f ns res body.object_meta.name ≡ o
    → let (answer, g) = placed o ns res body k f in
      ((answer.0 ≢ none) × Same f g)
      ⊎ ((f ns res body.object_meta.name ≡ none)
          × IsWritten ns res body.object_meta.name body answer f g)
placed_lem (some x) ns res body k f h = inl ((λ p. cc), λ a b d. refl)
placed_lem none ns res body k f h = inr (
  h,
  record {
    object = at_revision (codes "8") body;
    sent = made-IsAnswerTo (codes "8") body;
    sets = λ a b d. refl;
    answered = λ _. refl;
  },
)

pub swapped_lem :
    (o : Option Object) (ns res n : Text) (body k : Object) (f : Shelf)
    → f ns res n ≡ o
    → let (answer, g) = swapped o ns res n body k f in
      ((answer.0 ≢ none) × Same f g) ⊎ IsReplaced ns res n body answer f g
swapped_lem none ns res n body k f h = inl ((λ p. cc), λ a b d. refl)
swapped_lem (some x) ns res n body k f h = elim (Bool-cases (is_current body x)) [
  | inr b ↦ rw b (inl ((λ p. cc), λ a b d. refl))
  | inl b ↦ rw b (
      inr (record {
        old = x;
        held = h;
        current = current_sound body x b;
        written = record {
          object = at_revision (0 ∷ x.object_meta.resource_version) body;
          sent = made-IsAnswerTo (0 ∷ x.object_meta.resource_version) body;
          sets = λ a b d. refl;
          answered = λ _. refl;
        };
        fresh = inl (longer-ne x.object_meta.resource_version 0);
      }))
]

pub removed_lem :
    (o : Option Object) (ns res n : Text) (f : Shelf)
    → let (e, g) = removed o ns res n f in ((e ≢ none) × Same f g) ⊎ Sets ns res n none f g
removed_lem none ns res n f = inl ((λ p. cc), λ a b d. refl)
removed_lem (some x) ns res n f = inr (λ a b d. refl)

pub fetched_lem :
    (o : Option Object) (k : Object) → (fetched o k).0 ≡ none → o ≡ some (fetched o k).1
fetched_lem none k h = cc h
fetched_lem (some x) k h = refl

pub refused-IsListing :
    (ns res : Text) (l : IstioKindList TestMessage) (f : Shelf)
    → ◌≡◌ {A = Option Error} (some refusal) none
    → IsListing ns res f l
refused-IsListing ns res l f h = cc h

abbrev pub laws : ApiLaws shelf
laws = record {
  stored = λ f. f;
  post = λ ns res body k f. placed_lem (f ns res body.object_meta.name) ns res body k f refl;
  put = λ ns res n body k f. swapped_lem (f ns res n) ns res n body k f refl;
  delete = λ ns res n f. removed_lem (f ns res n) ns res n f;
  get_same = λ ns res n k f a b d. refl;
  get_lem = λ ns res n k f h. fetched_lem (f ns res n) k h;
  list_same = λ ns res l f a b d. refl;
  list_lem = λ ns res l f h. refused-IsListing ns res l f h;
}

or_true : (b : Bool) → (b || true) ≡ true
or_true true = refl
or_true false = refl

is_current_same :
    (body old : Object)
    → old.object_meta.resource_version ≡ body.object_meta.resource_version
    → is_current body old ≡ true
is_current_same body old h = rw (h, eq_refl) (or_true (body.object_meta.resource_version == []))

pub current_put :
    (o : Option Object) (ns res n : Text) (body k old : Object) (f : Shelf)
    → o ≡ some old
    → old.object_meta.resource_version ≡ body.object_meta.resource_version
    → (swapped o ns res n body k f).0.0 ≡ none
current_put none ns res n body k old f h same = cc h
current_put (some x) ns res n body k old f h same =
    let same' = ap (λ y. y.object_meta.resource_version) (some-injective x old h) ∙ same in
    rw (is_current_same body x same') refl

pub missing_delete :
    (o : Option Object) (ns res n : Text) (f : Shelf) → o ≡ none → (removed o ns res n f).0 ≢ none
missing_delete none ns res n f h p = cc p
missing_delete (some x) ns res n f h p = cc h

abbrev pub available : IsAvailable laws
available = record {
  admits = λ body. body.object_meta.namespace ≡ codes "default";
  posts = λ ns res body k f _ _ h. ap (λ o. (placed o ns res body k f).0.0) h;
  puts = λ ns res n body k old f _ h same. current_put (f ns res n) ns res n body k old f h same;
  gets = λ ns res n k x f h. ap (λ o. (fetched o k).0) h;
  deletes = λ ns res n k f h. ap (λ o. (removed o ns res n f).0) h;
  deletes_missing = λ ns res n f h. missing_delete (f ns res n) ns res n f h;
}

abbrev pub client : Client Shelf TestMessage TestMessage
client = record { descriptor = broker_config_types TestMessage; dynamic = shelf }

-- An entry to create.
abbrev fresh : Entry TestMessage
fresh = kept product []

abbrev pub empty : Shelf
empty = λ ns res n. none

pub reached : Reach codec junk message_name client laws empty
reached = start (λ a b d. refl)

abbrev seen : Option (Entry TestMessage)
seen = view codec junk client laws empty fresh.type fresh.name fresh.namespace
