-- ===== src/Commands/Cobra.antt =====
-- What cobra documents of the execution of commands.
use old_broker_repo.Prelude.{Text, List, [], ◌∷◌, ◌++◌, Option, none, some, Error, ◌≡◌, ◌≢◌, All}
use old_broker_repo.Commands.{Command, Root, Execute}
use old_broker_repo.Commands.Shell.{Process, ◌>>=◌, done, returned}

-- An argument that is no flag.
abbrev pub IsPlain : Text → Type 0
IsPlain [] = Unit
IsPlain (c ∷ arg) = c ≢ b'-'

-- The arguments of a root name the first command of that name, and the others are no flags.
pub record Selects {W : Type 0} (root : Root W) (cmd : Command W) (rest : List Text) : Type 0 where
  pub before : List (Command W)
  pub after : List (Command W)
  pub args : root.args ≡ some (cmd.use_line ∷ rest)
  pub listed : root.commands ≡ before ++ cmd ∷ after
  pub first : All (λ other. other.use_line ≢ cmd.use_line) before
  pub plain : All IsPlain rest

-- A hook that is not set, or has no error.
abbrev pub Passes : Option (List Text → Option Error) → List Text → Type 0
Passes none rest = Unit
Passes (some hook) rest = hook rest ≡ none

-- What cobra documents of Execute, for a command with no hook for its children: the root's hook is
-- run first, and its error is reported and returned; else the command is run.
pub record ExecuteLaws {W : Type 0} (execute : Execute W) : Type 0 where
  pub report : Root W → Error → W → W
  pub refuse :
      (root : Root W) (cmd : Command W) (rest : List Text) (hook : List Text → Option Error)
      (x : Error) (w : W)
      → Selects root cmd rest
      → cmd.persistent_pre_run_e ≡ none
      → root.command.persistent_pre_run_e ≡ some hook
      → hook rest ≡ some x
      → execute root w ≡ (returned (some x), report root x w)
  pub run :
      (root : Root W) (cmd : Command W) (rest : List Text) (body : List Text → Process W (Unit {0}))
      (w : W)
      → Selects root cmd rest
      → cmd.persistent_pre_run_e ≡ none
      → Passes root.command.persistent_pre_run_e rest
      → Passes cmd.pre_run_e rest
      → cmd.run ≡ some body
      → execute root w ≡ (body rest >>= (λ _. done none)) w
