-- ===== src/Crd/Registration.antt =====
-- RegisterResources and DeregisterResources of client.go: the custom resource definitions of a
-- descriptor, over the API extensions of Kubernetes.
pub mod Conditions
pub mod Correct
pub mod Outcome
use old_broker_repo.Prelude.{
  Text, codes, List, [], ◌∷◌, Bool, true, false, Option, none, some, Error, ok, err, panic, errorf,
  append, Act, ◌⊎◌,
}
use old_broker_repo.Prelude.Calls.{pure, fail, of_result, call, run, ◌>>=◌, ◌>>◌}
use old_broker_repo.Config.Schema.{Schema}
use old_broker_repo.Config.Descriptor.{Descriptor}
use old_broker_repo.Config.BrokerStore.{istio_api_group, istio_api_version}
use old_broker_repo.Crd.Names.{resource_names}
use old_broker_repo.Crd.Client.{no_error}

-- `apiextensionsv1beta1.CustomResourceDefinition`, what is filled of it; the scope is always
-- `NamespaceScoped`.
pub record CustomResourceDefinition : Type 0 where
  pub name : Text
  pub group : Text
  pub version : Text
  pub singular : Text
  pub plural : Text
  pub kind : Text

pub data ConditionType : Type 0 where
  established names_accepted : ConditionType
  other_type : Text → ConditionType

pub data ConditionStatus : Type 0 where
  condition_true condition_false condition_unknown : ConditionStatus

pub record Condition : Type 0 where
  pub type : ConditionType
  pub status : ConditionStatus
  pub reason : Text

-- The calls of the library: `NewForConfig`, the requests of `CustomResourceDefinitions()`, of which
-- `get` answers with the conditions of the status, `IsAlreadyExists`, and `wait.Poll` at 500ms and
-- 60s.
pub record Extensions (W : Type 0) : Type 0 where
  pub new_for_config : W → (Error ⊎ Unit {0}) × W
  pub create : CustomResourceDefinition → W → Option Error × W
  pub get : Text → W → (Error ⊎ List Condition) × W
  pub delete : Text → W → Option Error × W
  pub is_already_exists : Error → Bool
  pub poll : Act W Bool → W → Option Error × W

-- The fourth of the resource names.
abbrev pub name_of : {Message : Type 0} → Schema Message → Text
name_of schema = (resource_names schema).3

unfoldable pub definition_of : {Message : Type 0} → Schema Message → CustomResourceDefinition
definition_of schema =
    let (k, s, p, name) = resource_names schema in
    record {
      name = name;
      group = istio_api_group;
      version = istio_api_version;
      singular = s;
      plural = p;
      kind = k;
    }

-- How the loop over the conditions ends: with `continue descriptor`, or with the errors so far.
pub data Inspected : Type 0 where
  is_established : Inspected
  pending : Option Error → Inspected

unfoldable pub inspect : List Condition → Option Error → Inspected
inspect [] errs = pending errs
inspect (cond ∷ conds) errs = elim cond.type [
  | established ↦ elim cond.status [ condition_true ↦ is_established | _ ↦ inspect conds errs ]
  | names_accepted ↦ elim cond.status [
    | condition_false ↦
        inspect conds
          (some (append errs (some (errorf (codes "name conflict: %v") (cond.reason ∷ [])))))
    | _ ↦ inspect conds errs
  ]
  | other_type _ ↦ inspect conds errs
]

-- The error of a call as a value; a panic goes on.
abbrev pub attempt : {W : Type 0} → Act W (Unit {0}) → Act W (Option Error)
attempt m w =
    let (r, w') = m w in
    elim r [ ok _ ↦ (ok none, w') | err e ↦ (ok (some e), w') | panic ↦ (panic, w') ]

module _ {W Message : Type 0} (api : Extensions W) where
  -- The loop of the creations, with the error of the last one.
  unfoldable pub create_all : Descriptor Message → Option Error → Act W (Option Error)
  create_all [] last = pure last
  create_all (schema ∷ descriptor) last = do
    e ← run (api.create (definition_of schema))
    elim e [
      | none ↦ create_all descriptor none
      | some x ↦ elim (api.is_already_exists x) [
        | true ↦ create_all descriptor (some x)
        | false ↦ fail x
      ]
    ]

  -- The function that is polled.
  unfoldable pub check_established : Descriptor Message → Act W Bool
  unfolding inspect
  check_established [] = pure true
  check_established (schema ∷ descriptor) = do
    conditions ← call (api.get (name_of schema))
    elim (inspect conditions none) [
      | is_established ↦ check_established descriptor
      | pending errs ↦ fail (
          append errs
            (some (errorf (codes "missing status condition for %q") (name_of schema ∷ []))))
    ]

  -- The loop of the deletions.
  unfoldable pub delete_all : Descriptor Message → Option Error → Act W (Option Error)
  delete_all [] errs = pure errs
  delete_all (schema ∷ descriptor) errs = do
    e ← run (api.delete (name_of schema))
    delete_all descriptor (some (append errs e))

  unfoldable pub deregister_resources : Descriptor Message → Act W (Unit {0})
  unfolding delete_all
  deregister_resources descriptor = do
    call api.new_for_config
    errs ← delete_all descriptor none
    of_result (no_error errs)

  unfoldable pub register_resources : Descriptor Message → Act W (Unit {0})
  unfolding create_all check_established deregister_resources
  register_resources descriptor = do
    call api.new_for_config
    last ← create_all descriptor none
    failed ← run (api.poll (check_established descriptor))
    elim failed [
      | none ↦ pure tt
      | some _ ↦ do
        delete_error ← attempt (deregister_resources descriptor)
        elim delete_error [
          | none ↦ of_result (no_error last)
          | some x ↦ fail (append last (some x))
        ]
    ]
