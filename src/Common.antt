-- ===== src/Common.antt =====
-- Shared names: the libraries' passed on, Boolean tests, lists over the native numbers, results.
-- `Bytes` and below hold the parts of Go's `strings`, `encoding/hex`, `path/filepath` and `os`
-- that the program uses.
mod Booleans
mod Lists
mod Outcome
pub mod Int
pub mod Bytes
pub mod Dict
pub mod Disk
pub use Booleans.*
pub use Lists.*
pub use Outcome.*
pub use Prim.Native.Nat.{ℕ, zero, suc, ◌+◌, ◌-◌, ◌*◌, ◌/◌, ◌%◌, ◌^◌, ◌≤◌, ◌<◌}
pub use mathlib.Core.Path.{◌≡◌, refl, sym, ap, ap₂, ◌∙◌, subst}
pub use mathlib.Core.Logic.{◌≢◌, ◌↔◌, ◌⊎◌, inl, inr}
pub use mathlib.Core.Bool.{Bool, true, false, not, ◌&&◌, ◌||◌}
pub use mathlib.Core.Option.{Option, none, some}
pub use mathlib.Core.List.{List, [], ◌∷◌, ◌++◌, map, append-nil, append_assoc}
pub use native.Mathlib.Omega.{arith}
