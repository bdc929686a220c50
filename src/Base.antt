-- ===== src/Base.antt =====
-- The names that all modules share: the libraries', passed on, with the tests, lists, signed
-- integers and association lists that the components stand on.
mod Tests
mod Lists
mod Int
mod ByteStrings
mod Maybe
pub mod Assoc
pub use Tests.*
pub use Lists.*
unfoldable pub use ByteStrings.*
pub use Maybe.*
pub use Int.*
pub use Prim.Native.Nat.{ℕ, zero, suc, ◌+◌, ◌-◌, ◌*◌, ◌/◌, ◌%◌, ◌^◌, ◌≤◌, ◌<◌}
pub use mathlib.Core.Path.{◌≡◌, refl, sym, ap, ◌∙◌}
pub use mathlib.Core.Logic.{◌≢◌, ◌↔◌, ◌⊎◌, inl, inr}
pub use mathlib.Core.Bool.{Bool, true, false, not, ◌&&◌, ◌||◌}
pub use mathlib.Core.Option.{Option, none, some}
pub use mathlib.Core.List.{List, [], ◌∷◌, ◌++◌, map, reverse}
pub use native.Mathlib.Omega.{arith}
