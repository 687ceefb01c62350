-- ===== src/Base.antt =====
-- What the models of the kernel share: the libraries' names, Boolean tests on numbers, lists as C
-- arrays, the outcome of code that may fail an assertion, and the error codes of kern/errno.h.
mod Tests
mod Lists
mod Failure
pub mod Errno
pub use Tests.*
pub use Lists.*
pub use Failure.*
pub use Prim.Native.Nat.{ℕ, zero, suc, ◌+◌, ◌-◌, ◌*◌, ◌/◌, ◌%◌, ◌^◌, ◌≤◌, ◌<◌}
pub use mathlib.Core.Path.{◌≡◌, refl, sym, ap, ◌∙◌}
pub use mathlib.Core.Logic.{◌≢◌, ◌↔◌, ◌⊎◌, inl, inr}
pub use mathlib.Core.Bool.{Bool, true, false, ◌&&◌, ◌||◌, not}
pub use mathlib.Core.Option.{Option, none, some}
pub use mathlib.Core.List.{List, [], ◌∷◌, ◌++◌}
pub use native.Mathlib.Omega.{arith}
