-- ===== src/Commands/Brks.antt =====
-- cmd/brks: the broker's command line, and its command that runs the server.
pub mod Ends
use old_broker_repo.Prelude.{
  ℕ, Text, codes, List, [], ◌∷◌, Option, none, some, Error, ok, err, panic, Act, Bool, true, ◌⊎◌,
}
use old_broker_repo.Prelude.Calls.{Ranging}
use old_broker_repo.Proto.{Messages}
use old_broker_repo.Config.Codec.{Codec}
use old_broker_repo.Osb.{Catalog}
use old_broker_repo.Crd.Connection.{Setup}
use old_broker_repo.Controller.Handler.{handle_catalog}
use old_broker_repo.Controller.Response.{Event}
use old_broker_repo.Version.{BuildInfo}
use old_broker_repo.Server.{Server, Listen, create_server, start}
use old_broker_repo.Commands.{Flag, Command, Root, Execute, no_arguments, version_cmd, main_of}
use old_broker_repo.Commands
use old_broker_repo.Commands.Shell.{
  Process, ◌>>=◌, ◌>>◌, calling, crash, text, number, failure, Printer, FormatFn,
}

-- The variables of the flags.
pub record ServerArgs : Type 0 where
  pub port : ℕ
  pub api_port : ℕ
  pub kubeconfig : Text

-- As the flags are declared.
abbrev pub default_args : ServerArgs
default_args = record { port = 9091; api_port = 9093; kubeconfig = [] }

-- `server.CreateServer`, and `Start` of the server that it returns.
pub record Servers (W : Type 0) (msgs : Messages) : Type 0 where
  pub create : Text → Act W (Server W msgs)
  pub start : Server W msgs → ℕ → W → W

-- Those of pkg/server.
abbrev pub broker_servers :
    {W : Type 0} (msgs : Messages)
    → Ranging W
    → (c : Codec msgs.Message) → c.Value
    → Setup W c.Value
    → Listen W (Option (List Event))
    → (Catalog → Error ⊎ Text)
    → Option Error
    → Servers W msgs
broker_servers msgs ranging c nil_map setup listen marshal write_error = record {
  create = create_server msgs ranging c nil_map setup;
  start = start listen (handle_catalog msgs ranging marshal write_error);
}

module _ {W : Type 0} {msgs : Messages} (servers : Servers W msgs) where
  unfoldable pub run_server : ServerArgs → FormatFn W → FormatFn W → Process W (Unit {0})
  run_server sa printf fatalf = do
    osb ← calling (servers.create sa.kubeconfig)
    elim osb [
      | err e ↦ fatalf (codes "Failed to create server: %s") (failure e ∷ [])
      | ok s ↦ do
        printf (codes "Server started, listening on port %d") (number sa.port ∷ [])
        printf (codes "CTL-C to break out of broker") []
        calling (λ w. (tt {0}, servers.start s sa.port w))
      | panic ↦ crash
    ]

  -- `serverCmd(printf, fatalf)`, where `parsed` is what the parse of the command line makes of the
  -- variables.
  unfoldable pub server_cmd : (ServerArgs → ServerArgs) → FormatFn W → FormatFn W → Command W
  unfolding run_server
  server_cmd parsed printf fatalf = record {
    use_line = codes "server";
    short = codes "Starts Broker as a server";
    persistent_pre_run_e = none;
    pre_run_e = some (λ args. none);
    run = some (λ args. run_server (parsed default_args) printf fatalf);
    flags = [];
    persistent_flags =
        record {
          name = codes "port";
          shorthand = [];
          value = number default_args.port;
          usage = codes "TCP port to use for Broker's Open Service Broker (OSB) API";
        }
        ∷ record {
          name = codes "apiPort";
          shorthand = [];
          value = number default_args.api_port;
          usage = codes "TCP port to use for Broker's gRPC API";
        }
        ∷ record {
          name = codes "kubeconfig";
          shorthand = [];
          value = text default_args.kubeconfig;
          usage = codes "Use a Kubernetes configuration file instead of in-cluster configuration";
        }
        ∷ [];
  }

-- A flag set of Go's package flag, such as the variable flag.CommandLine: its flags, and whether
-- arguments have been parsed.
pub record FlagSet : Type 0 where
  pub go_flags : List Flag
  pub parsed : Bool

module _ {W : Type 0} {msgs : Messages} (print : Printer W) (info : BuildInfo)
    (servers : Servers W msgs) (parsed_args : ServerArgs → ServerArgs) where
  -- `GetRootCmd(args)`, with flag.CommandLine before and after; a nil slice of arguments is `none`.
  unfoldable pub get_root_cmd : Option (List Text) → FlagSet → Root W × FlagSet
  unfolding server_cmd
  get_root_cmd args command_line = (
    record {
      command = record {
        use_line = codes "brks";
        short =
            codes
              "The Istio broker provides open service broker functionality to the Istio services and external marketplaces";
        persistent_pre_run_e = some no_arguments;
        pre_run_e = none;
        run = none;
        flags = [];
        persistent_flags = command_line.go_flags;
      };
      args = args;
      commands =
          server_cmd servers parsed_args (Commands.printf print) (Commands.fatalf print)
          ∷ version_cmd (Commands.printf print) info
          ∷ [];
    },
    record { go_flags = []; parsed = true },
  )

  unfoldable pub main : Execute W → List Text → FlagSet → Process W (Unit {0})
  unfolding get_root_cmd
  main execute os_args command_line = main_of execute (get_root_cmd (some os_args) command_line).0
