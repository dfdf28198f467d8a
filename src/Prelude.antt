-- ===== src/Prelude.antt =====
-- What the other modules share: library names, tests, texts, dictionaries, results and actions.
mod Tests
mod Lists
pub mod Time
pub mod Bytes
pub mod Dict
mod Errors
pub mod Exec
pub use Tests.*
pub use Lists.*
unfoldable pub use Errors.*
unfoldable pub use Bytes.{Text, codes, ◌==◌, Text-discrete}
pub use Prim.Native.Nat.{ℕ, zero, suc, ◌+◌, ◌-◌, ◌*◌, ◌/◌, ◌%◌, ◌^◌, ◌≤◌, ◌<◌}
pub use Prim.Native.String.{String}
pub use mathlib.Core.Path.{◌≡◌, refl, sym, ap, ◌∙◌}
pub use mathlib.Core.Logic.{◌≢◌, ◌↔◌, ◌⊎◌, inl, inr, ite}
pub use mathlib.Core.Bool.{Bool, true, false, not, ◌&&◌, ◌||◌}
pub use mathlib.Core.Option.{Option, none, some}
pub use mathlib.Core.List.{List, [], ◌∷◌, ◌++◌, map}
pub use native.Mathlib.Omega.{arith}
unfoldable pub use native.Mathlib.Decide.{ℕ_discrete}
