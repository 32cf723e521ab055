-- ===== src/Base.antt =====
-- Names that all modules share: the libraries', passed on, and those of the children. Texts are
-- native strings where the program only compares and joins them, and lists of bytes where it
-- looks inside.
mod Tests
mod Lists
mod Tables
mod Texts
mod Keys
mod Moves
mod Evolution
mod Time
mod Scan
mod Sorting
mod Reordering
pub use Tests.*
pub use Lists.*
unfoldable pub use Tables.*
unfoldable pub use Texts.*
pub use Keys.*
pub use Moves.*
pub use Evolution.*
unfoldable pub use Time.*
unfoldable pub use Scan.*
unfoldable pub use Sorting.*
pub use Reordering.*
pub use Prim.Native.Nat.{ℕ, zero, suc, ◌+◌, ◌-◌, ◌*◌, ◌/◌, ◌%◌, ◌^◌, ◌≤◌, ◌<◌, max}
pub use Prim.Native.String.{String, len}
pub use mathlib.Core.Path.{◌≡◌, refl, sym, ap, ◌∙◌, subst}
pub use mathlib.Core.Logic.{◌≢◌, ◌↔◌, ◌⊎◌, inl, inr}
pub use mathlib.Core.Bool.{Bool, true, false, not, ◌&&◌, ◌||◌}
pub use mathlib.Core.Option.{Option, none, some}
pub use mathlib.Core.List.{List, [], ◌∷◌, ◌++◌, map}
pub use native.Mathlib.Omega.{arith}
