-- ===== src/Prelude.antt =====
-- The names that the other modules share: the libraries', passed on, and those of the children.
-- Rust values are read as follows. An unsigned integer is a native number, and the operations that
-- can leave its width (`checked_add`, `saturating_sub`, ...) are those of `Prelude.Words`. A `Vec`,
-- slice or deque is a list, a `HashSet` or `HashMap` is a list with one entry for each key
-- (`Prelude.Sets`, `Prelude.Maps`), and a `String` is the list of its `char`s (`Prelude.Text`).
mod Tests
mod Lists
mod Errors
pub mod Words
pub mod Bytes
pub mod Bits
pub mod Masks
pub mod Int
pub mod Fields
pub mod Sets
pub mod Maps
pub mod Text
pub mod Sorting
pub mod Collect
unfoldable pub use Tests.*
pub use Lists.*
pub use Errors.*
pub use Prim.Native.Nat.{ℕ, zero, suc, ◌+◌, ◌-◌, ◌*◌, ◌/◌, ◌%◌, ◌^◌, ◌≤◌, ◌<◌, min, max}
pub use mathlib.Core.Path.{◌≡◌, refl, sym, ap, ap₂, ◌∙◌, subst}
pub use mathlib.Core.Logic.{◌≢◌, ◌↔◌, ◌⊎◌, inl, inr}
pub use mathlib.Core.Bool.{Bool, true, false, not, ◌&&◌, ◌||◌}
pub use mathlib.Core.Option.{Option, none, some}
pub use mathlib.Core.List.{List, [], ◌∷◌, ◌++◌, map}
pub use native.Mathlib.Omega.{arith}
