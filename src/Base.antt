-- ===== src/Base.antt =====
-- The names that every module shares: those of the libraries, passed on, and those of the
-- children: tests on numbers, lists, maps from addresses, and the outcome of kernel code.
mod Tests
mod Lists
mod Maps
mod Runs
mod Scan
mod Int
pub use Tests.*
pub use Lists.*
pub use Maps.*
pub use Runs.*
unfoldable pub use Scan.*
pub use Int.*
pub use Prim.Native.Nat.{ℕ, zero, suc, ◌+◌, ◌-◌, ◌*◌, ◌/◌, ◌%◌, ◌^◌, ◌≤◌, ◌<◌, min, max}
pub use mathlib.Core.Path.{◌≡◌, refl, sym, ap, ap₂, subst, fun_ext, ◌∙◌}
pub use mathlib.Core.Logic.{◌≢◌, ◌↔◌, ◌⊎◌, inl, inr}
pub use mathlib.Core.Bool.{Bool, true, false, false≢true, not, ◌&&◌, ◌||◌}
pub use mathlib.Core.Option.{Option, none, some}
pub use mathlib.Core.List.{List, [], ◌∷◌, ◌++◌, map}
pub use native.Mathlib.Omega.{arith}
