-- ===== src/Commands.antt =====
-- The commands of cmd: cmd/shared/print.go, and what the commands use of cobra.
pub mod Shell
pub mod Cobra
pub mod Brks
pub mod Brkcol
use old_broker_repo.Prelude.{ℕ, Text, codes, List, [], ◌∷◌, ◌++◌, Option, none, some, Error, errorf}
use old_broker_repo.Version.{BuildInfo, string}
use old_broker_repo.Commands.Shell.{
  ℤ, negsuc, Process, ◌>>=◌, ◌>>◌, exit, calling, Arg, text, stdout, stderr, Printer, FormatFn,
}

module _ {W : Type 0} (print : Printer W) where
  abbrev pub newline : Text
  newline = 10 ∷ []

  -- The process ends with the code -1.
  unfoldable pub fatalf : FormatFn W
  fatalf format args = do
    calling (λ w. (tt {0}, print stderr (format ++ newline) args w))
    exit (negsuc 0)

  unfoldable pub printf : FormatFn W
  printf format args = calling (λ w. (tt {0}, print stdout (format ++ newline) args w))

-- A variable that a flag sets, with its default.
pub record Flag : Type 0 where
  pub name : Text
  pub shorthand : Text
  pub value : Arg
  pub usage : Text

-- The fields of `cobra.Command` that the commands set. The two hooks return an error or nil.
pub record Command (W : Type 0) : Type 0 where
  pub use_line : Text
  pub short : Text
  pub persistent_pre_run_e : Option (List Text → Option Error)
  pub pre_run_e : Option (List Text → Option Error)
  pub run : Option (List Text → Process W (Unit {0}))
  pub flags : List Flag
  pub persistent_flags : List Flag

-- A root command, with the commands that AddCommand put below it, and the arguments of SetArgs, if it
-- was called.
pub record Root (W : Type 0) : Type 0 where
  pub command : Command W
  pub args : Option (List Text)
  pub commands : List (Command W)

-- `Execute` of a root: it parses the arguments, those of the process where SetArgs was not called,
-- and runs a command, which may end the process.
abbrev pub Execute : Type 0 → Type 0
Execute W = Root W → Process W (Option Error)

-- The hook that both root commands set.
unfoldable pub no_arguments : List Text → Option Error
no_arguments [] = none
no_arguments (arg ∷ args) = some (errorf (codes "'%s' is an invalid argument") (arg ∷ []))

-- `VersionCmd()`
unfoldable pub version_cmd : {W : Type 0} → FormatFn W → BuildInfo → Command W
version_cmd printf info = record {
  use_line = codes "version";
  short = codes "Prints out build version information";
  persistent_pre_run_e = none;
  pre_run_e = none;
  run = some (λ args. printf (codes "%s") (text (string info) ∷ []));
  flags = [];
  persistent_flags = [];
}

-- The body of both functions `main`: the process ends with the code -1 on an error of Execute.
unfoldable pub main_of : {W : Type 0} → Execute W → Root W → Process W (Unit {0})
main_of execute root_cmd = do
  e ← execute root_cmd
  elim e [ none ↦ calling (λ w. (tt {0}, w)) | some x ↦ exit (negsuc 0) ]
