-- ===== src/Tests/Commands.antt =====
-- The commands at concrete inputs, with a small command-line library.
use old_broker_repo.Prelude.{
  ℕ, suc, Text, codes, List, [], ◌∷◌, ◌++◌, Option, none, some, Error, foreign, ok, inl, inr, ◌≡◌,
  ◌≢◌, refl, arith, false, All, ◌==◌, ◌==?◌, eq_refl, if◌then◌else◌, ap, ◌∙◌, length, ◌≤◌,
}
use old_broker_repo.Controller.Handler.{create_controller}
use old_broker_repo.Crd.Client.{check_types}
use old_broker_repo.Crd.Connection.{new_client}
use old_broker_repo.Crd.Objects.{known_types}
use old_broker_repo.Server.{Listen, create_server}
use old_broker_repo.Commands.Brkcol.{Generators, work}
use old_broker_repo.Commands.Brkcol.Ends.{Generates, stages_of, work-Generates}
use old_broker_repo.Server.Address.{address, IsNumeral, address-port}
use old_broker_repo.Tests.Cluster.{client}
use old_broker_repo.Crd.Client.{as_store}
use old_broker_repo.Config.BrokerStore.{make_broker_config_store}
use old_broker_repo.Version.{init, unknown}
use old_broker_repo.Commands.{Command, Root, Execute, fatalf, printf}
use old_broker_repo.Commands.Shell.{Process, ◌>>=◌, done, returned, exited, negsuc, Printer}
use old_broker_repo.Commands.Brks.{broker_servers, FlagSet, get_root_cmd, main}
use old_broker_repo.Commands.Brks.Ends.{main_refuses, main_serves}
use old_broker_repo.Commands.Cobra.{Selects, Passes, ExecuteLaws}
use old_broker_repo.Tests.World.{junk, msgs, codec, ranging}
use old_broker_repo.Tests.Server.{setup}

abbrev find : {W : Type 0} → Text → List (Command W) → Option (Command W)
find name [] = none
find name (cmd ∷ cmds) =
    let rest = find name cmds in if cmd.use_line == name then some cmd else rest

abbrev error_of : Option (List Text → Option Error) → List Text → Option Error
error_of none rest = none
error_of (some hook) rest = hook rest

abbrev run_of :
    {W : Type 0} → Option (List Text → Process W (Unit {0})) → List Text → Process W (Option Error)
run_of none rest = done none
run_of (some body) rest = body rest >>= (λ _. done none)

abbrev dispatch : {W : Type 0} → Root W → Option (List Text) → Process W (Option Error)
dispatch root none = done none
dispatch root (some []) = done none
dispatch root (some (name ∷ rest)) = elim (find name root.commands) [
  | none ↦ done (some (foreign (codes "unknown command")))
  | some cmd ↦ elim (error_of root.command.persistent_pre_run_e rest) [
    | some x ↦ done (some x)
    | none ↦ elim (error_of cmd.pre_run_e rest) [
      | some x ↦ done (some x)
      | none ↦ run_of cmd.run rest
    ]
  ]
]

abbrev execute : {W : Type 0} → Execute W
execute root = dispatch root root.args

find_first :
    {W : Type 0} (cmd : Command W) (before after : List (Command W))
    → All (λ other. other.use_line ≢ cmd.use_line) before
    → find cmd.use_line (before ++ cmd ∷ after) ≡ some cmd
find_first cmd [] after h = rw (eq_refl cmd.use_line)
find_first cmd (x ∷ before) after (p, h) = elim (x.use_line ==? cmd.use_line) [
  | inl (q, e) ↦ absurd (p q)
  | inr (q, e) ↦ rw e (find_first cmd before after h)
]

Passes-none :
    (hook : Option (List Text → Option Error)) (rest : List Text)
    → Passes hook rest
    → error_of hook rest ≡ none
Passes-none none rest h = refl
Passes-none (some hook) rest h = h

selected :
    {W : Type 0} (root : Root W) (cmd : Command W) (rest : List Text)
    → Selects root cmd rest
    → find cmd.use_line root.commands ≡ some cmd
selected root cmd rest s = ap (find cmd.use_line) s.listed ∙ find_first cmd s.before s.after s.first

laws : {W : Type 0} → ExecuteLaws {W = W} execute
laws = record {
  report = λ root x w. w;
  refuse = λ root cmd rest hook x w s p q r. rw (s.args, dispatch, selected root cmd rest s, q, r);
  run = λ root cmd rest body w s p q r t. rw (
    s.args,
    dispatch,
    selected root cmd rest s,
    Passes-none root.command.persistent_pre_run_e rest q,
    Passes-none cmd.pre_run_e rest r,
    t,
  );
}

abbrev silent : Printer ℕ
silent stream format args w = suc w

-- Every address is in use.
abbrev listen : {A : Type 0} → Listen ℕ A
listen addr routes w = (some (foreign (codes "address already in use")), w)

abbrev no_flags : FlagSet
no_flags = record { go_flags = []; parsed = false }

main_refuses_example :
    main silent
      (init unknown)
      (broker_servers msgs ranging codec junk setup listen (λ cat. inr (codes "{}")) none)
      (λ args. args)
      execute
      (codes "server" ∷ codes "now" ∷ [])
      no_flags
      0
    ≡ (exited (negsuc 0), 0)
unfolding laws
main_refuses_example =
    main_refuses silent (init unknown)
      (broker_servers msgs ranging codec junk setup listen (λ cat. inr (codes "{}")) none)
      (λ args. args) execute laws no_flags (codes "server") (codes "now") [] 0 (inl refl)
      (omega arith) tt

connected : create_server msgs ranging codec junk setup [] 0 ≡ (
  ok (record {
    ctr = record {
      broker_config_store = make_broker_config_store msgs ranging (as_store codec junk client);
    };
  }),
  2,
)
unfolding create_server create_controller new_client check_types known_types ◌==◌
connected = refl

-- The process returns although nothing could be served.
main_serves_example :
    (w : ℕ) × (main silent
        (init unknown)
        (broker_servers msgs ranging codec junk setup listen (λ cat. inr (codes "{}")) none)
        (λ args. args)
        execute
        (codes "server" ∷ [])
        no_flags
        0
      ≡ (returned tt, w))
main_serves_example =
    main_serves msgs ranging codec junk setup listen (λ cat. inr (codes "{}")) none silent
      (init unknown) (λ args. args) execute laws no_flags _ 0 2 connected

abbrev generators : Generators ℕ
generators = record {
  gen_man_tree = λ r hdr dir w. (none, suc w);
  gen_markdown_tree = λ r dir w. (some (foreign (codes "no such directory")), w);
  gen_yaml_tree = λ r dir w. (none, suc w);
  gen_bash_completion_file = λ r file w. (none, suc w);
  name = λ r. codes "brks";
}

abbrev documented : Root ℕ
documented =
    (get_root_cmd silent (init unknown)
      (broker_servers msgs ranging codec junk setup listen (λ cat. inr (codes "{}")) none)
      (λ args. args) none no_flags).0

work-Generates_example :
    Generates silent
      (stages_of silent generators documented (codes ".") documented)
      1
      (work generators documented (printf silent) (fatalf silent) (codes ".") 0)
work-Generates_example = work-Generates silent generators documented (codes ".") 0

address-port_example :
    (digits : Text) × (address 9091 ≡ codes ":" ++ digits)
    × IsNumeral 9091 digits
    × (length digits ≤ 5)
address-port_example = address-port 9091 (omega arith)
