-- ===== src/Crd/Connection.antt =====
-- client.go: how a client is connected to a cluster.
pub mod Origin
use old_broker_repo.Prelude.{
  ℕ, Text, codes, List, [], ◌∷◌, map, Bool, true, false, Option, none, some, Error, ok, err, panic,
  errorf, append, Act, lift, ◌⊎◌, inl, inr, ◌==◌, if◌then◌else◌, byte_eq,
}
use old_broker_repo.Prelude.Calls.{pure, fail, of_result, call, run, ◌>>=◌, ◌>>◌}
use old_broker_repo.Config.Descriptor.{Descriptor}
use old_broker_repo.Config.BrokerStore.{istio_api_group, istio_api_version}
use old_broker_repo.Crd.Client.{RestClient, Client, check_types}

-- `rest.Config`: what the library makes of a file or of the cluster, and what the package sets; the
-- serializer is the scheme with the known types.
pub record RestConfig (Base Scheme : Type 0) : Type 0 where
  pub base : Base
  pub group : Text
  pub version : Text
  pub api_path : Text
  pub content_type : Text
  pub serializer : Scheme

-- The calls: `os.Stat`, of which only the size is read, `os.IsNotExist`, `rest.InClusterConfig`,
-- `clientcmd.BuildConfigFromFlags`, the scheme with the known types at a group and a version, and
-- `rest.RESTClientFor`.
pub record Setup (W Value : Type 0) : Type 1 where
  pub Base : Type 0
  pub Scheme : Type 0
  pub stat : Text → W → (Error ⊎ ℕ) × W
  pub is_not_exist : Error → Bool
  pub in_cluster_config : W → (Error ⊎ Base) × W
  pub build_config_from_flags : Text → W → (Error ⊎ Base) × W
  pub known_scheme : Text → Text → Error ⊎ Scheme
  pub rest_client_for : RestConfig Base Scheme → W → (Error ⊎ RestClient W Value) × W

module _ {W Value : Type 0} (setup : Setup W Value) where
  open setup use {Base, Scheme}

  -- An empty path stands for the configuration of the cluster that the broker runs in.
  unfoldable pub resolve_config : Text → Act W Text
  resolve_config kubeconfig = if kubeconfig == [] then pure kubeconfig else do
    info ← run (setup.stat kubeconfig)
    elim info [
      | inl e ↦
          if setup.is_not_exist e
          then fail
              (errorf (codes "kubernetes configuration file %q does not exist") (kubeconfig ∷ []))
          else fail (
              append (some e)
                (some (errorf (codes "kubernetes configuration file %q") (kubeconfig ∷ []))))
      | inr size ↦ if byte_eq size 0 then pure [] else pure kubeconfig
    ]

  unfoldable create_rest_config : Text → Act W (RestConfig Base Scheme)
  create_rest_config kubeconfig = do
    base ← call (
        if kubeconfig == []
        then setup.in_cluster_config
        else setup.build_config_from_flags kubeconfig)
    scheme ← of_result (lift (setup.known_scheme istio_api_group istio_api_version))
    pure (record {
      base = base;
      group = istio_api_group;
      version = istio_api_version;
      api_path = codes "/apis";
      content_type = codes "application/json";
      serializer = scheme;
    })

  unfoldable pub new_client :
      {Message : Type 0} → Text → Descriptor Message → Act W (Client W Message Value)
  unfolding resolve_config create_rest_config
  new_client config descriptor = do
    of_result (check_types Value descriptor)
    kubeconfig ← resolve_config config
    restconfig ← create_rest_config kubeconfig
    dynamic ← call (setup.rest_client_for restconfig)
    pure (record { descriptor = descriptor; dynamic = dynamic })
