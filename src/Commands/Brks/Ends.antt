-- ===== src/Commands/Brks/Ends.antt =====
-- How the broker's process ends.
use old_broker_repo.Commands.Cobra.{IsPlain, Selects, ExecuteLaws}
use old_broker_repo.Prelude.{
  Text, codes, List, [], ◌∷◌, ◌++◌, Option, none, some, Error, errorf, ok, err, ◌≡◌, ◌⊎◌, inl, inr,
  refl, All, subst, sym, ◌∙◌,
}
use old_broker_repo.Proto.{Messages}
use old_broker_repo.Version.{BuildInfo}
use old_broker_repo.Prelude.Calls.{Ranging}
use old_broker_repo.Config.Codec.{Codec}
use old_broker_repo.Osb.{Catalog}
use old_broker_repo.Controller.Response.{Event}
use old_broker_repo.Controller.Handler.{handle_catalog}
use old_broker_repo.Crd.Connection.{Setup}
use old_broker_repo.Server.{Server, Listen, create_server, start}
use old_broker_repo.Server.Address.{address}
use old_broker_repo.Commands.{
  Command, Root, Execute, newline, no_arguments, version_cmd, fatalf, printf, main_of,
}
use old_broker_repo.Commands.Shell.{
  Process, ◌>>=◌, done, calling, exit, Ended, returned, exited, negsuc, number, failure, stdout,
  stderr, Printer,
}
use old_broker_repo.Commands.Brks.{
  ServerArgs, default_args, Servers, broker_servers, run_server, server_cmd, FlagSet, get_root_cmd,
  main,
}

module _ {W : Type 0} {msgs : Messages} (print : Printer W) (info : BuildInfo)
    (servers : Servers W msgs) (parsed_args : ServerArgs → ServerArgs) (execute : Execute W)
    (laws : ExecuteLaws execute) (command_line : FlagSet) where
  abbrev root : List Text → Root W
  root os_args = (get_root_cmd print info servers parsed_args (some os_args) command_line).0

  abbrev refusal : List Text → Text → W → Ended (Unit {0}) × W
  refusal os_args arg w = (
    exited (negsuc 0),
    laws.report (root os_args) (errorf (codes "'%s' is an invalid argument") (arg ∷ [])) w,
  )

  abbrev process : List Text → Process W (Unit {0})
  process os_args = main print info servers parsed_args execute os_args command_line

  no_arguments-main :
      (os_args : List Text) (cmd : Command W) (arg : Text) (rest : List Text) (w : W)
      → Selects (root os_args) cmd (arg ∷ rest)
      → cmd.persistent_pre_run_e ≡ none
      → process os_args w ≡ (
        exited (negsuc 0),
        laws.report (root os_args) (errorf (codes "'%s' is an invalid argument") (arg ∷ [])) w,
      )
  unfolding main main_of no_arguments get_root_cmd
  no_arguments-main os_args cmd arg rest w s p =
      rw (laws.refuse (root os_args) cmd (arg ∷ rest) no_arguments _ w s p refl refl)

  Selects-server :
      (rest : List Text)
      → All IsPlain rest
      → Selects
          (root (codes "server" ∷ rest))
          (server_cmd servers parsed_args (printf print) (fatalf print))
          rest
  unfolding get_root_cmd server_cmd
  Selects-server rest plain = record {
    before = [];
    after = version_cmd (printf print) info ∷ [];
    args = refl;
    listed = refl;
    first = tt;
    plain = plain;
  }

  Selects-version :
      (rest : List Text)
      → All IsPlain rest
      → Selects (root (codes "version" ∷ rest)) (version_cmd (printf print) info) rest
  unfolding get_root_cmd server_cmd version_cmd
  Selects-version rest plain = record {
    before = server_cmd servers parsed_args (printf print) (fatalf print) ∷ [];
    after = [];
    args = refl;
    listed = refl;
    first = ((λ h. cc), tt);
    plain = plain;
  }

  -- With a command-line library that runs the hooks as documented, `brks server` and `brks version`
  -- with a further argument that is no flag end with the exit code -1, with the error for the first
  -- such argument reported and nothing else done: no server is made and nothing is printed by the
  -- commands.
  pub main_refuses :
      (name arg : Text) (rest : List Text) (w : W)
      → (name ≡ codes "server") ⊎ (name ≡ codes "version")
      → IsPlain arg
      → All IsPlain rest
      → main print info servers parsed_args execute (name ∷ arg ∷ rest) command_line w ≡ (
        exited (negsuc 0),
        laws.report
            (get_root_cmd print info servers parsed_args (some (name ∷ arg ∷ rest)) command_line).0
            (errorf (codes "'%s' is an invalid argument") (arg ∷ []))
            w,
      )
  unfolding server_cmd version_cmd
  main_refuses name arg rest w (inl p) q plain =
      subst (λ n. process (n ∷ arg ∷ rest) w ≡ refusal (n ∷ arg ∷ rest) arg w) (sym p)
        (no_arguments-main _ _ arg rest w (Selects-server (arg ∷ rest) (q, plain)) refl)
  main_refuses name arg rest w (inr p) q plain =
      subst (λ n. process (n ∷ arg ∷ rest) w ≡ refusal (n ∷ arg ∷ rest) arg w) (sym p)
        (no_arguments-main _ _ arg rest w (Selects-version (arg ∷ rest) (q, plain)) refl)

  server_main :
      (w : W)
      → process (codes "server" ∷ []) w
        ≡ ((run_server servers (parsed_args default_args) (printf print) (fatalf print)
                >>= (λ _. done {A = Option Error} none))
              >>= (λ e. elim e [ none ↦ calling (λ w. (tt {0}, w)) | some x ↦ exit (negsuc 0) ]))
            w
  unfolding main main_of no_arguments get_root_cmd server_cmd
  server_main w =
      rw (laws.run (root (codes "server" ∷ [])) _ [] _ w (Selects-server [] tt) refl refl refl refl)

  -- x
  pub main_fails :
      (x : Error) (w w₁ : W)
      → servers.create (parsed_args default_args).kubeconfig w ≡ (err x, w₁)
      → main print info servers parsed_args execute (codes "server" ∷ []) command_line w ≡ (
        exited (negsuc 0),
        print stderr (codes "Failed to create server: %s" ++ newline print) (failure x ∷ []) w₁,
      )
  unfolding run_server fatalf
  main_fails x w w₁ p = server_main w ∙ rw p

  server_started :
      (s : Server W msgs) (w w₁ : W)
      → servers.create (parsed_args default_args).kubeconfig w ≡ (ok s, w₁)
      → main print info servers parsed_args execute (codes "server" ∷ []) command_line w ≡ (
        returned tt,
        servers.start s (parsed_args default_args).port (
            print stdout (codes "CTL-C to break out of broker" ++ newline print) [] (
              print stdout
                (codes "Server started, listening on port %d" ++ newline print)
                (number (parsed_args default_args).port ∷ [])
                w₁)),
      )
  unfolding run_server printf
  server_started s w w₁ p = server_main w ∙ rw p

module _ {W : Type 0} (msgs : Messages) (ranging : Ranging W) (c : Codec msgs.Message)
    (nil_map : c.Value) (setup : Setup W c.Value) (listen : Listen W (Option (List Event)))
    (marshal : Catalog → Error ⊎ Text) (write_error : Option Error) (print : Printer W)
    (info : BuildInfo) (parsed_args : ServerArgs → ServerArgs) (execute : Execute W)
    (laws : ExecuteLaws execute) (command_line : FlagSet) where
  abbrev served : Servers W msgs
  served = broker_servers msgs ranging c nil_map setup listen marshal write_error

  -- With a command-line library that runs the named command as documented, the command `brks
  -- server`, if CreateServer makes a server for the path in the variables of its flags, listens on
  -- the port in them, with the server's catalog handler for GET requests of /v2/catalog as the only
  -- route; and the process then returns from main, whatever the listener reports, so also where it
  -- could not listen.
  pub main_serves :
      (s : Server W msgs) (w w₁ : W)
      → create_server msgs ranging c nil_map setup (parsed_args default_args).kubeconfig w
        ≡ (ok s, w₁)
      → (w₂ : W) × (main print info
            (broker_servers msgs ranging c nil_map setup listen marshal write_error)
            parsed_args
            execute
            (codes "server" ∷ [])
            command_line
            w
          ≡ (
            returned tt,
            (listen
                (address (parsed_args default_args).port)
                (record {
                  path = codes "/v2/catalog";
                  method = codes "GET";
                  handler = handle_catalog msgs ranging marshal write_error s.ctr;
                }
                  ∷ [])
                w₂).1,
          ))
  unfolding start
  main_serves s w w₁ p = (
    print stdout (codes "CTL-C to break out of broker" ++ newline print) [] (
        print stdout (codes "Server started, listening on port %d" ++ newline print)
          (number (parsed_args default_args).port ∷ []) w₁),
    server_started print info served parsed_args execute laws command_line s w w₁ p,
  )
