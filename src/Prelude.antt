-- ===== src/Prelude.antt =====
-- The names that the other modules share: those of the libraries, Boolean tests on the native
-- numbers, lists, integers and Go strings.
mod Tests
mod Lists
pub mod Int
pub mod Text
pub use Tests.*
pub use Lists.{length, drop, All, All-append, length-append, all, List-cases}
unfoldable pub use Lists.{find}
pub use Prim.Native.Nat.{ℕ, zero, suc, ◌+◌, ◌-◌, ◌*◌, ◌/◌, ◌%◌, ◌^◌, ◌≤◌, ◌<◌, min}
pub use mathlib.Core.Path.{◌≡◌, refl, sym, ap, ◌∙◌, subst}
pub use mathlib.Core.Logic.{◌≢◌, ◌↔◌, ◌⊎◌, inl, inr}
pub use mathlib.Core.Bool.{Bool, true, false, not, ◌&&◌, ◌||◌}
pub use mathlib.Core.Option.{Option, none, some}
pub use mathlib.Core.List.{List, [], ◌∷◌, ◌++◌, map}
pub use native.Mathlib.Omega.{arith}
