-- ===== src/Tests/Api/Laws.antt =====
-- The server with room for one object keeps the laws of the API.
use old_broker_repo.Prelude.{
  ℕ, Text, codes, [], ◌∷◌, Option, none, some, ◌≡◌, ◌≢◌, ◌⊎◌, inl, inr, Bool, true, false, refl,
  arith, ◌==◌, eq_refl, eq_iff, ◌&&◌, ◌||◌, if◌then◌else◌, Bool-cases, Memᴰ, sym, ap,
}
use old_broker_repo.Crd.Objects.{IstioKindList, get_items}
use old_broker_repo.Crd.Api.{Same, Sets, IsAnswerTo, IsWritten, IsReplaced, ApiLaws}
use old_broker_repo.Tests.World.{TestMessage}
use old_broker_repo.Tests.Api.{
  Object, Slot, Room, is_at, held, at_revision, fetch, place, is_current, replace, remove, listed,
  server,
}

pub made-IsAnswerTo : (r : Text) (body : Object) → IsAnswerTo body (at_revision r body)
made-IsAnswerTo r body = record {
  name = refl;
  namespace = refl;
  labels = refl;
  annotations = refl;
  spec = refl;
}

pub is_at_sound :
    (x : Slot) (ns res n : Text)
    → is_at x ns res n ≡ true
    → (x.namespace ≡ ns) × (x.resource ≡ res) × (x.name ≡ n)
is_at_sound x ns res n h =
    let a : (x.namespace == ns) ≡ true = ground arith in
    let b : (x.resource == res) ≡ true = ground arith in
    let d : (x.name == n) ≡ true = ground arith in
    ((eq_iff x.namespace ns).0 a, (eq_iff x.resource res).0 b, (eq_iff x.name n).0 d)

if-same :
    (b : Bool) (v o : Option Object)
    → (if b then v else none) ≡ (if b then v else if b then o else none)
if-same true v o = refl
if-same false v o = refl

if-none :
    (b : Bool) (o : Option Object)
    → ◌≡◌ {A = Option Object} none (if b then none else if b then o else none)
if-none true o = refl
if-none false o = refl

pub longer-ne : (l : Text) (c : ℕ) → c ∷ l ≢ l
longer-ne [] c p = cc
longer-ne (x ∷ l) c p = longer-ne l x (ground arith)

pub current_sound :
    (body old : Object)
    → is_current body old ≡ true
    → body.object_meta.resource_version ≢ []
    → old.object_meta.resource_version ≡ body.object_meta.resource_version
current_sound body old h m = ground (
  arith,
  eq_iff body.object_meta.resource_version [],
  eq_iff body.object_meta.resource_version old.object_meta.resource_version,
)

pub post_lem :
    (ns res : Text) (body k : Object) (w : Room)
    → let (answer, w') = place ns res body k w in
      ((answer.0 ≢ none) × Same (held w) (held w'))
      ⊎ ((held w ns res body.object_meta.name ≡ none)
          × IsWritten ns res body.object_meta.name body answer (held w) (held w'))
post_lem ns res body k none = inr (
  refl,
  record {
    object = at_revision (codes "8") body;
    sent = made-IsAnswerTo (codes "8") body;
    sets = λ a b d. refl;
    answered = λ _. refl;
  },
)
post_lem ns res body k (some x) = inl ((λ h. cc), λ a b d. refl)

pub put_lem :
    (ns res n : Text) (body k : Object) (w : Room)
    → let (answer, w') = replace ns res n body k w in
      ((answer.0 ≢ none) × Same (held w) (held w'))
      ⊎ IsReplaced ns res n body answer (held w) (held w')
put_lem ns res n body k none = inl ((λ h. cc), λ a b d. refl)
put_lem ns res n body k (some x) =
    elim (Bool-cases (is_at x ns res n && is_current body x.object)) [
      | inl h ↦
          let (p, q, r) = is_at_sound x ns res n (ground arith) in
          let current : is_current body x.object ≡ true = ground arith in
          rw h (
            inr (record {
              old = x.object;
              held = rw (p, q, r, eq_refl ns, eq_refl res, eq_refl n);
              current = λ m. current_sound body x.object current m;
              written = record {
                object = at_revision (0 ∷ x.object.object_meta.resource_version) body;
                sent = made-IsAnswerTo (0 ∷ x.object.object_meta.resource_version) body;
                sets = λ ns' res' n'.
                    rw (p, q, r)
                      (if-same (ns == ns' && (res == res' && n == n'))
                        (some (at_revision (0 ∷ x.object.object_meta.resource_version) body))
                        (some x.object));
                answered = λ _. refl;
              };
              fresh = inl (longer-ne x.object.object_meta.resource_version 0);
            }))
      | inr h ↦ rw h (inl ((λ h. cc), λ a b d. refl))
    ]

pub delete_lem :
    (ns res n : Text) (w : Room)
    → let (e, w') = remove ns res n w in
      ((e ≢ none) × Same (held w) (held w')) ⊎ Sets ns res n none (held w) (held w')
delete_lem ns res n none = inl ((λ h. cc), λ a b d. refl)
delete_lem ns res n (some x) = elim (Bool-cases (is_at x ns res n)) [
  | inl h ↦
      let (p, q, r) = is_at_sound x ns res n h in
      rw h (
        inr (λ ns' res' n'.
          rw (p, q, r) (if-none (ns == ns' && (res == res' && n == n')) (some x.object))))
  | inr h ↦ rw h (inl ((λ h. cc), λ a b d. refl))
]

pub fetch_same :
    (ns res n : Text) (k : Object) (w : Room) → Same (held w) (held (fetch ns res n k w).1)
fetch_same ns res n k none = λ a b d. refl
fetch_same ns res n k (some x) = elim (Bool-cases (is_at x ns res n)) [
  | inl h ↦ rw h (λ a b d. refl)
  | inr h ↦ rw h (λ a b d. refl)
]

pub fetch_lem :
    (ns res n : Text) (k : Object) (w : Room)
    → (fetch ns res n k w).0.0 ≡ none
    → held w ns res n ≡ some (fetch ns res n k w).0.1
fetch_lem ns res n k none h = cc
fetch_lem ns res n k (some x) h = ground arith

list_sound :
    (ns res : Text) (w : Room) (item : Option Object)
    → Memᴰ item (listed ns res w)
    → (ns' n : Text) × (k : Object) × (item ≡ some k)
      × (held w ns' res n ≡ some k)
      × ((ns ≡ []) ⊎ (ns ≡ ns'))
list_sound ns res none item m = elim m [ ]
list_sound ns res (some x) item m =
    elim (Bool-cases (x.resource == res && (ns == [] || ns == x.namespace))) [
      | inl h ↦ elim (rw h at m) [
        | Memᴰ.head p ↦ (
          x.namespace,
          x.name,
          x.object,
          p,
          (let q = (eq_iff x.resource res).0 (ground arith) in
              rw (q, eq_refl x.namespace, eq_refl res, eq_refl x.name)),
          ground (arith, eq_iff ns [], eq_iff ns x.namespace),
        )
        | Memᴰ.tail m' ↦ elim m' [ ]
      ]
      | inr h ↦ elim (rw h at m) [ ]
    ]

list_complete :
    (ns res : Text) (w : Room) (ns' n : Text) (k : Object)
    → held w ns' res n ≡ some k
    → (ns ≡ []) ⊎ (ns ≡ ns')
    → Memᴰ (some k) (listed ns res w)
list_complete ns res none ns' n k h i = cc
list_complete ns res (some x) ns' n k h i =
    let at : is_at x ns' res n ≡ true = ground arith in
    let (p, q, r) = is_at_sound x ns' res n at in
    let same : x.object ≡ k = ground arith in
    let inside : (ns == [] || ns == x.namespace) ≡ true =
      ground (arith, eq_iff ns [], eq_iff ns x.namespace) in
    rw (q, eq_refl res, inside) (Memᴰ.head (ap some (sym same)))

pub list_found :
    (ns res : Text) (l : IstioKindList TestMessage) (w : Room) (item : Option Object)
    → Memᴰ item (get_items (server.list_into ns res l w).0.1)
    → (ns' n : Text) × (k : Object) × (item ≡ some k)
      × (held w ns' res n ≡ some k)
      × ((ns ≡ []) ⊎ (ns ≡ ns'))
unfolding get_items
list_found ns res l w item m = list_sound ns res w item m

pub list_all :
    (ns res : Text) (l : IstioKindList TestMessage) (w : Room) (ns' n : Text) (k : Object)
    → held w ns' res n ≡ some k
    → (ns ≡ []) ⊎ (ns ≡ ns')
    → Memᴰ (some k) (get_items (server.list_into ns res l w).0.1)
unfolding get_items
list_all ns res l w ns' n k h i = list_complete ns res w ns' n k h i

unfoldable pub laws : ApiLaws server
laws = record {
  stored = held;
  post = post_lem;
  put = put_lem;
  delete = delete_lem;
  get_same = fetch_same;
  get_lem = fetch_lem;
  list_same = λ ns res l w a b d. refl;
  list_lem =
      λ ns res l w h. record { sound = list_found ns res l w; complete = list_all ns res l w };
}
