-- ===== src/Commands/Shell.antt =====
-- Calls that may end the process (`os.Exit`), on the world outside.
use old_broker_repo.Prelude.{ℕ, Text, List, Error}

pub data ℤ : Type 0 where
  pos negsuc : ℕ → ℤ

-- A call returns, or it ends the process with a code or in a panic.
pub data Ended (A : Type 0) : Type 0 where
  returned : A → Ended A
  exited : ℤ → Ended A
  crashed : Ended A

abbrev pub Process : Type 0 → Type 0 → Type 0
Process W A = W → Ended A × W

module _ {W A B : Type 0} where
  abbrev pub go_on : Ended A → (A → Process W B) → Process W B
  go_on (returned a) f w = f a w
  go_on (exited code) f w = (exited code, w)
  go_on crashed f w = (crashed, w)

  infixl 5 ◌>>=◌ ◌>>◌
  abbrev pub ◌>>=◌ : Process W A → (A → Process W B) → Process W B
  ◌>>=◌ m f w = let (r, w') = m w in go_on r f w'

  abbrev pub ◌>>◌ : Process W A → Process W B → Process W B
  m >> n = m >>= λ _. n

module _ {W : Type 0} where
  abbrev pub done : {A : Type 0} → A → Process W A
  done a w = (returned a, w)

  -- `os.Exit(code)`
  abbrev pub exit : {A : Type 0} → ℤ → Process W A
  exit code w = (exited code, w)

  abbrev pub crash : {A : Type 0} → Process W A
  crash w = (crashed, w)

  -- A call of a library that returns.
  abbrev pub calling : {A : Type 0} → (W → A × W) → Process W A
  calling f w = let (a, w') = f w in (returned a, w')

-- What is printed in place of a verb of a format.
pub data Arg : Type 0 where
  text : Text → Arg
  number : ℕ → Arg
  failure : Error → Arg

pub data Stream : Type 0 where
  stdout stderr : Stream

-- `fmt.Fprintf` to a stream.
abbrev pub Printer : Type 0 → Type 0
Printer W = Stream → Text → List Arg → W → W

-- `FormatFn` of cmd/shared/print.go.
abbrev pub FormatFn : Type 0 → Type 0
FormatFn W = Text → List Arg → Process W (Unit {0})
