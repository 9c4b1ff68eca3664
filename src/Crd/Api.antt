-- ===== src/Crd/Api.antt =====
-- What the API of Kubernetes documents of its custom resources, as laws of the REST client that
-- client.go calls. `stored` is what the server holds; a request may return an error although it was
-- carried out.
use old_broker_repo.Prelude.{
  Text, [], Option, none, some, Error, ◌≡◌, ◌≢◌, ◌⊎◌, ◌&&◌, ◌==◌, if◌then◌else◌, Memᴰ,
}
use old_broker_repo.Crd.Objects.{IstioKind, IstioKindList, get_items}
use old_broker_repo.Crd.Client.{RestClient}

-- The objects by namespace, resource and name.
abbrev pub Objects : Type 0 → Type 0
Objects Value = Text → Text → Text → Option (IstioKind Value)

module _ {Value : Type 0} where
  abbrev pub Same : Objects Value → Objects Value → Type 0
  Same f g =
      (namespace resource name : Text) → g namespace resource name ≡ f namespace resource name

  -- One key is set, and the others are as they were.
  abbrev pub Sets :
      Text → Text → Text → Option (IstioKind Value) → Objects Value → Objects Value → Type 0
  Sets namespace resource name v f g =
      (ns res n : Text)
      → g ns res n ≡ (if namespace == ns && (resource == res && name == n) then v else f ns res n)

  -- The object that is stored is the one that was sent, but for the revision and the kind.
  pub record IsAnswerTo (body answer : IstioKind Value) : Type 0 where
    pub name : answer.object_meta.name ≡ body.object_meta.name
    pub namespace : answer.object_meta.namespace ≡ body.object_meta.namespace
    pub labels : answer.object_meta.labels ≡ body.object_meta.labels
    pub annotations : answer.object_meta.annotations ≡ body.object_meta.annotations
    pub spec : answer.spec ≡ body.spec

  -- The body is stored, and answered where no error is.
  pub record IsWritten (namespace resource name : Text) (body : IstioKind Value)
      (answer : Option Error × IstioKind Value) (f g : Objects Value) : Type 0 where
    pub object : IstioKind Value
    pub sent : IsAnswerTo body object
    pub sets : Sets namespace resource name (some object) f g
    pub answered : answer.0 ≡ none → answer.1 ≡ object

  -- An object of the sent revision is replaced; a body with no revision replaces any. The revision is
  -- another one unless the object stays as it is.
  pub record IsReplaced (namespace resource name : Text) (body : IstioKind Value)
      (answer : Option Error × IstioKind Value) (f g : Objects Value) : Type 0 where
    pub old : IstioKind Value
    pub held : f namespace resource name ≡ some old
    pub current :
        body.object_meta.resource_version ≢ []
        → old.object_meta.resource_version ≡ body.object_meta.resource_version
    pub written : IsWritten namespace resource name body answer f g
    pub fresh :
        (written.object.object_meta.resource_version ≢ old.object_meta.resource_version)
        ⊎ (written.object ≡ old)

  -- The list holds the objects of the resource, in the namespace or, if that is empty, in all.
  pub record IsListing (namespace resource : Text) (f : Objects Value) (l : IstioKindList Value)
      : Type 0 where
    pub sound :
        (item : Option (IstioKind Value))
        → Memᴰ item (get_items l)
        → (ns name : Text) × (k : IstioKind Value) × (item ≡ some k)
          × (f ns resource name ≡ some k)
          × ((namespace ≡ []) ⊎ (namespace ≡ ns))
    pub complete :
        (ns name : Text) (k : IstioKind Value)
        → f ns resource name ≡ some k
        → (namespace ≡ []) ⊎ (namespace ≡ ns)
        → Memᴰ (some k) (get_items l)

pub record ApiLaws {W Value : Type 0} (api : RestClient W Value) : Type 0 where
  pub stored : W → Objects Value
  pub post :
      (namespace resource : Text) (body obj : IstioKind Value) (w : W)
      → let (answer, w') = api.post_into namespace resource body obj w in
        ((answer.0 ≢ none) × Same (stored w) (stored w'))
        ⊎ ((stored w namespace resource body.object_meta.name ≡ none)
            × IsWritten namespace resource body.object_meta.name body answer (stored w) (stored w'))
  pub put :
      (namespace resource name : Text) (body obj : IstioKind Value) (w : W)
      → let (answer, w') = api.put_into namespace resource name body obj w in
        ((answer.0 ≢ none) × Same (stored w) (stored w'))
        ⊎ IsReplaced namespace resource name body answer (stored w) (stored w')
  pub delete :
      (namespace resource name : Text) (w : W)
      → let (e, w') = api.delete namespace resource name w in
        ((e ≢ none) × Same (stored w) (stored w'))
        ⊎ Sets namespace resource name none (stored w) (stored w')
  -- Reads change nothing; an answer with no error is an object that is there.
  pub get_same :
      (namespace resource name : Text) (obj : IstioKind Value) (w : W)
      → Same (stored w) (stored (api.get_into namespace resource name obj w).1)
  pub get_lem :
      (namespace resource name : Text) (obj : IstioKind Value) (w : W)
      → (api.get_into namespace resource name obj w).0.0 ≡ none
      → stored w namespace resource name ≡ some (api.get_into namespace resource name obj w).0.1
  pub list_same :
      (namespace resource : Text) (l : IstioKindList Value) (w : W)
      → Same (stored w) (stored (api.list_into namespace resource l w).1)
  pub list_lem :
      (namespace resource : Text) (l : IstioKindList Value) (w : W)
      → (api.list_into namespace resource l w).0.0 ≡ none
      → IsListing namespace resource (stored w) (api.list_into namespace resource l w).0.1
