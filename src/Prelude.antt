-- ===== src/Prelude.antt =====
-- What the modules share: the libraries' names passed on, Boolean tests, signed integers, byte
-- strings and 64-bit arithmetic. It models no file of its own.
mod Tests
mod Lists
mod Text
pub mod Int
pub mod Map
pub use Tests.*
pub use Lists.*
pub use Text.*
unfoldable pub use Text.{bytes_eq, bytes_lt}
pub use Prim.Native.Nat.{ℕ, zero, suc, ◌+◌, ◌-◌, ◌*◌, ◌/◌, ◌%◌, ◌^◌, ◌≤◌, ◌<◌, min, max}
pub use Prim.Native.String.{String}
pub use mathlib.Core.Path.{◌≡◌, refl, sym, ap, subst, ◌∙◌}
pub use mathlib.Core.Logic.{◌≢◌, ◌↔◌, ◌⊎◌, inl, inr}
pub use mathlib.Core.Bool.{Bool, true, false, not, ◌&&◌, ◌||◌}
pub use mathlib.Core.Option.{Option, none, some}
pub use mathlib.Core.List.{List, [], ◌∷◌, ◌++◌, map}
pub use native.Mathlib.Omega.{arith}
