-- ===== src/Commands/Brkcol.antt =====
-- cmd/brkcol: the command line that writes the documentation of the broker's commands.
pub mod Ends
use old_broker_repo.Prelude.{Text, codes, List, [], ◌∷◌, ◌++◌, Option, none, some, Error}
use old_broker_repo.Commands.{Flag, Command, Root, Execute, no_arguments, main_of}
use old_broker_repo.Commands
use old_broker_repo.Commands.Shell.{
  Process, ◌>>=◌, ◌>>◌, done, calling, text, failure, Printer, FormatFn,
}

-- `doc.GenManHeader`
pub record GenManHeader : Type 0 where
  pub title : Text
  pub section : Text
  pub manual : Text

-- The generators of cobra and of its package doc, and the name of a command.
pub record Generators (W : Type 0) : Type 0 where
  pub gen_man_tree : Root W → GenManHeader → Text → W → Option Error × W
  pub gen_markdown_tree : Root W → Text → W → Option Error × W
  pub gen_yaml_tree : Root W → Text → W → Option Error × W
  pub gen_bash_completion_file : Root W → Text → W → Option Error × W
  pub name : Root W → Text

abbrev pub hdr : GenManHeader
hdr = record {
  title = codes "Istio Broker";
  section = codes "Broker CLI";
  manual = codes "Istio Broker";
}

module _ {W : Type 0} (gen : Generators W) (brks_root : Root W) where
  -- `if err := generate(…); err != nil { fatalf(message, err) }`
  unfoldable pub or_fatal : FormatFn W → Text → (W → Option Error × W) → Process W (Unit {0})
  or_fatal fatalf message generate = do
    e ← calling generate
    elim e [ none ↦ done tt | some x ↦ fatalf message (failure x ∷ []) ]

  -- The body of the loop over the roots.
  unfoldable pub generate_root : FormatFn W → Text → Root W → Process W (Unit {0})
  unfolding or_fatal
  generate_root fatalf output_dir r = do
    or_fatal fatalf (codes "Unable to output manpage tree: %v") (gen.gen_man_tree r hdr output_dir)
    or_fatal fatalf (codes "Unable to output markdown tree: %v")
        (gen.gen_markdown_tree r output_dir)
    or_fatal fatalf (codes "Unable to output YAML tree: %v") (gen.gen_yaml_tree r output_dir)
    or_fatal fatalf (codes "Unable to output bash completion file: %v")
        (gen.gen_bash_completion_file r (output_dir ++ codes "/" ++ gen.name r ++ codes ".bash"))

  unfoldable pub generate_roots : FormatFn W → Text → List (Root W) → Process W (Unit {0})
  unfolding generate_root
  generate_roots fatalf output_dir [] = done tt
  generate_roots fatalf output_dir (r ∷ roots) = do
    generate_root fatalf output_dir r
    generate_roots fatalf output_dir roots

  -- `brks_root` is `brks.GetRootCmd(nil)`.
  unfoldable pub work : FormatFn W → FormatFn W → Text → Process W (Unit {0})
  unfolding generate_roots
  work printf fatalf output_dir = do
    printf (codes "Outputting Broker CLI collateral files to %s") (text output_dir ∷ [])
    generate_roots fatalf output_dir (brks_root ∷ [])

  -- `parsed` is what the parse of the command line makes of the variable of the flag.
  unfoldable pub get_root_cmd : (Text → Text) → FormatFn W → FormatFn W → Root W
  unfolding work
  get_root_cmd parsed printf fatalf = record {
    command = record {
      use_line = codes "brkcol";
      short = codes "Generate collateral for Broker CLI commands";
      persistent_pre_run_e = some no_arguments;
      pre_run_e = none;
      run = some (λ args. work printf fatalf (parsed (codes ".")));
      flags =
          record {
            name = codes "outputDir";
            shorthand = codes "o";
            value = text (codes ".");
            usage = codes "Directory where to generate the CLI collateral files";
          }
          ∷ [];
      persistent_flags = [];
    };
    args = none;
    commands = [];
  }

  unfoldable pub main : (Text → Text) → Printer W → Execute W → Process W (Unit {0})
  unfolding get_root_cmd
  main parsed print execute =
      main_of execute (get_root_cmd parsed (Commands.printf print) (Commands.fatalf print))
