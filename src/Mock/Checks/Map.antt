-- ===== src/Mock/Checks/Map.antt =====
-- pkg/testing/mock/config.go: whether an empty store keeps what was created, updated and deleted.
pub mod Samples
pub mod Ends
pub mod Phases
pub mod Loops
pub mod Revisions
pub mod Faults
use old_broker_repo.Prelude.{
  ℕ, zero, suc, byte_eq, ltb, length, Text, codes, List, [], ◌∷◌, ◌++◌, Bool, true, false, not,
  Option, none, some, Error, Act, Result, ok, ◌⊎◌, inl, inr, ◌==◌, if◌then◌else◌, Permᴰ,
}
use old_broker_repo.Prelude.Calls.{pure, run, of_result, ◌>>=◌, ◌>>◌}
use old_broker_repo.Config.Resource.{Meta, Entry}
use old_broker_repo.Config.Descriptor.{get_by_type}
use old_broker_repo.Config.Store.{Store}
use old_broker_repo.Mock.{
  Fakes, FakeConfig, fake_config, itoa, make, make_with, at_revision, compare,
}
use old_broker_repo.Mock.Checks.{
  Report, report_error, error, text, format, Run, report, attempt, observe, must, must_fail,
  report_if,
}

-- Go maps with numbers as keys, and the order in which they are visited.
abbrev pub Numbered : Type 0 → Type 0
Numbered V = List (ℕ × V)

unfoldable pub put : {V : Type 0} → ℕ → V → Numbered V → Numbered V
put i v [] = (i, v) ∷ []
put i v ((j, u) ∷ m) = if byte_eq i j then (j, v) ∷ m else (j, u) ∷ put i v m

-- The value, or the type's zero value.
unfoldable pub value_at : {V : Type 0} → V → ℕ → Numbered V → V
value_at zero_value i [] = zero_value
value_at zero_value i ((j, u) ∷ m) = if byte_eq i j then u else value_at zero_value i m

pub record Visits (W : Type 0) : Type 1 where
  pub visit : {V : Type 0} → Numbered V → W → Numbered V × W
  pub visit_perm : {V : Type 0} (m : Numbered V) (w : W) → Permᴰ m (visit m w).0

-- The order in which the loop goes over a map.
unfoldable pub visited : {W V : Type 0} → (W → Numbered V × W) → Run W (Numbered V)
visited f (w, reports) = let (m, w') = f w in (ok m, (w', reports))

-- The reports of a listing.
abbrev pub list_error : Error → Report
list_error e = format (codes "List error %#v, %v")

abbrev pub wanted_n : Text
wanted_n = codes "wanted %d element(s), got %d in %v"

abbrev pub wanted_none : Text
wanted_none = codes "wanted 0 element(s), got %d in %v"

abbrev pub present : {A : Type 0} → Option A → Bool
present none = false
present (some a) = true

module _ {Message : Type 0} (fakes : Fakes Message) where
  -- `elts[i] = Make(namespace, i)` for `n` numbers from `i` on.
  unfoldable pub elements_from : Text → ℕ → ℕ → Numbered (Entry Message) → Numbered (Entry Message)
  unfolding put make
  elements_from namespace zero i elts = elts
  elements_from namespace (suc left) i elts =
      elements_from namespace left (suc i) (put i (make fakes namespace i) elts)

  -- `config.Entry{}`
  abbrev pub zero_entry : Entry Message
  zero_entry = record {
    meta = record {
      type = [];
      name = [];
      namespace = [];
      istio_namespace = [];
      labels = [];
      annotations = [];
      resource_version = [];
    };
    spec = fakes.nil_message;
  }

  unfoldable pub named_entry : Text → Text → FakeConfig → Entry Message
  unfolding fake_config
  named_entry name revision message = record {
    meta = record {
      type = (fake_config fakes).type;
      name = name;
      namespace = [];
      istio_namespace = [];
      labels = [];
      annotations = [];
      resource_version = revision;
    };
    spec = fakes.fake message;
  }

  -- `elt` of the loop that updates: its pair's value is extended, and it has the revision.
  unfoldable pub updated : Text → ℕ → Text → Entry Message
  unfolding make_with itoa at_revision
  updated namespace i revision =
      at_revision (make_with fakes namespace i (itoa i ++ codes "(updated)")) revision

  -- `!ok || !Compare(elt, *v1)`
  unfoldable pub is_kept : Entry Message → Option (Entry Message) → Bool
  unfolding compare
  is_kept elt none = false
  is_kept elt (some v1) = compare fakes elt v1

  -- The first loop that looks the elements up, which collects their revisions.
  abbrev pub with_revision :
      ℕ → Entry Message → Option (Entry Message) → Numbered Text → Numbered Text
  with_revision i elt none revs = revs
  with_revision i elt (some v1) revs =
      if compare fakes elt v1 then put i v1.resource_version revs else revs

module _ {W Message : Type 0} (fakes : Fakes Message) (visits : Visits W)
    (store : Store W Message) where
  unfoldable pub create_all : Numbered (Entry Message) → Run W (Unit {0})
  unfolding attempt must
  create_all [] = pure tt
  create_all ((i, elt) ∷ elts) = do
    created ← attempt (store.create elt)
    must error created
    create_all elts

  unfoldable pub check_created : Numbered (Entry Message) → Numbered Text → Run W (Numbered Text)
  unfolding observe report_if is_kept fake_config
  check_created [] revs = pure revs
  check_created ((i, elt) ∷ elts) revs = do
    v1 ← observe (store.get (fake_config fakes).type elt.name elt.namespace)
    report_if (not (is_kept fakes elt v1)) (format (codes "wanted %v, got %v"))
    check_created elts (with_revision fakes i elt v1 revs)

  -- The second one; the names are those of `elts[i]`.
  unfoldable pub check_updated :
      Numbered (Entry Message) → Numbered (Entry Message) → Run W (Unit {0})
  unfolding observe report_if is_kept fake_config value_at
  check_updated elts [] = pure tt
  check_updated elts ((i, elt) ∷ order) = do
    let named = value_at (zero_entry fakes) i elts
    v1 ← observe (store.get (fake_config fakes).type named.name named.namespace)
    report_if (not (is_kept fakes elt v1)) (format (codes "wanted %v, got %v"))
    check_updated elts order

  unfoldable pub update_all :
      Text → Numbered Text → ℕ → ℕ → Numbered (Entry Message) → Run W (Numbered (Entry Message))
  unfolding attempt must updated put value_at
  update_all namespace revs zero i elts = pure elts
  update_all namespace revs (suc left) i elts = do
    let elt = updated fakes namespace i (value_at [] i revs)
    answer ← attempt (store.update elt)
    must error answer
    update_all namespace revs left (suc i) (put i elt elts)

  unfoldable pub delete_all : Numbered (Entry Message) → Numbered (Entry Message) → Run W (Unit {0})
  unfolding attempt must fake_config value_at
  delete_all elts [] = pure tt
  delete_all elts ((i, elt) ∷ order) = do
    let named = value_at (zero_entry fakes) i elts
    answer ← attempt (store.delete (fake_config fakes).type named.name named.namespace)
    must error answer
    delete_all elts order

  -- The writes that are to fail, with the first element and its revision.
  unfoldable pub check_refusals : Entry Message → Text → Run W (Unit {0})
  unfolding attempt must_fail named_entry at_revision
  check_refusals first revision = do
    let invalid = named_entry fakes (codes "invalid") revision (record { key = []; pairs = [] })
    let missing =
        named_entry fakes (codes "missing") revision (record { key = codes "missing"; pairs = [] })
    twice ← attempt (store.create first)
    must_fail (codes "expected error posting twice") twice
    posted ← attempt (store.create invalid)
    must_fail (codes "expected error posting invalid object") posted
    put_invalid ← attempt (store.update invalid)
    must_fail (codes "expected error putting invalid object") put_invalid
    put_missing ← attempt (store.update missing)
    must_fail (codes "expected error putting missing object with a missing key") put_missing
    unrevised ← attempt (store.update first)
    must_fail (codes "expected error putting object without revision") unrevised
    bad ← attempt (store.update (at_revision first (codes "bad")))
    must_fail (codes "expected error putting object with a bad revision") bad

  -- What is not there is not listed, not found and not deleted.
  unfoldable pub check_absent : Text → Run W (Unit {0})
  unfolding attempt observe must_fail report_if fake_config
  check_absent namespace = do
    listed ← observe (store.list (codes "missing") namespace)
    report_if (ltb 0 (length listed.0)) (format (codes "unexpected objects for missing type"))
    found ← observe (store.get (fake_config fakes).type (codes "missing") [])
    report_if (present found) (text (codes "unexpected configuration object found"))
    found' ← observe (store.get (codes "missing") (codes "missing") [])
    report_if (present found') (text (codes "unexpected configuration object found"))
    deleted ← attempt (store.delete (codes "missing") (codes "missing") [])
    must_fail (codes "expected error on deletion of missing type") deleted
    deleted' ← attempt (store.delete (fake_config fakes).type (codes "missing") [])
    must_fail (codes "expected error on deletion of missing element") deleted'

  -- The listing of the elements, with the reports of an error and of another number of elements.
  unfoldable pub check_count : Text → ℕ → (Error → Report) → Text → Run W (Unit {0})
  unfolding observe report_if report_error fake_config
  check_count namespace n of_error wanted = do
    listed ← observe (store.list (fake_config fakes).type namespace)
    report_error of_error listed.1
    report_if (not (byte_eq (length listed.0) n)) (format wanted)

  -- The check from the first listing on.
  unfoldable pub check_from_listing :
      Text → ℕ → Numbered (Entry Message) → Numbered Text → Run W (Unit {0})
  unfolding check_count update_all check_updated delete_all
  check_from_listing namespace n elts revs = do
    check_count namespace n list_error wanted_n
    elts' ← update_all namespace revs n 0 elts
    order ← visited (visits.visit elts')
    check_updated elts' order
    order' ← visited (visits.visit elts')
    delete_all elts' order'
    check_count namespace 0 error wanted_none

  -- The check from where the revisions are known on.
  unfoldable pub check_from_revisions :
      Text → ℕ → Numbered (Entry Message) → Numbered Text → Run W (Unit {0})
  unfolding check_refusals check_absent check_from_listing value_at
  check_from_revisions namespace n elts revs = do
    check_refusals (value_at (zero_entry fakes) 0 elts) (value_at [] 0 revs)
    check_absent namespace
    check_from_listing namespace n elts revs

  unfoldable pub check_map_invariant : Text → ℕ → Run W (Unit {0})
  unfolding report_if elements_from create_all check_created check_from_revisions fake_config
  check_map_invariant namespace n = do
    report_if (not (present (get_by_type store.descriptor (fake_config fakes).type)))
        (text (codes "expected config mock types"))
    let elts = elements_from fakes namespace n 0 []
    order ← visited (visits.visit elts)
    create_all order
    order' ← visited (visits.visit elts)
    revs ← check_created order' []
    check_from_revisions namespace n elts revs
