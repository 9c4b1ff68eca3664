-- ===== src/Prelude.antt =====
-- The names that the other modules share: the libraries', passed on, and those of the children.
mod Tests
mod Bytes
mod Outcomes
mod Lists
pub mod Dict
pub mod Calls
pub use Tests.{byte_eq, ltb, leb, if◌then◌else◌, Bool-cases, Option-cases, Sum-cases, byte_eq_iff}
pub use Lists.{All, All-append, All-mem, All-of, concat_assoc}
pub use Outcomes.{Error, Result, ok, err, panic, errorf, wrapped, prefixed, foreign, append}
pub use Outcomes.{Result-cases, ◌>>=◌, ◌>>◌, lift, map_err, Act}
unfoldable pub use Bytes.{◌==◌}
pub use Bytes.{Text, codes, length, eq_iff, eq_refl, ◌==?◌}
pub use Prim.Native.Nat.{ℕ, zero, suc, ◌+◌, ◌-◌, ◌*◌, ◌^◌, ◌≤◌, ◌<◌}
pub use mathlib.Core.Path.{◌≡◌, refl, sym, ap, ◌∙◌, subst}
pub use mathlib.Core.Logic.{◌≢◌, ◌↔◌, ◌⊎◌, inl, inr}
pub use mathlib.Core.Bool.{Bool, true, false, not, ◌&&◌, ◌||◌}
pub use mathlib.Core.Option.{Option, none, some}
pub use mathlib.Core.List.{List, [], ◌∷◌, ◌++◌, map}
pub use native.Mathlib.Omega.{arith}
pub use mathlib.Core.List.{Memᴰ, Permᴰ}
