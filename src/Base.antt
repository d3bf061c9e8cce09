-- ===== src/Base.antt =====
-- The names that every module shares: the libraries', passed on, and those of the children.
-- `Base.Tests` has the Boolean tests, `Base.Lists` lists with native indices, `Base.Words` the
-- wrapping arithmetic of uint32_t and uint64_t, `Base.Bytes` memory copies and little-endian
-- numbers, and `Base.Dict` the maps of the standard library as association lists.
mod Tests
mod Lists
mod Words
pub mod Bytes
pub mod Dict
pub use Tests.*
pub use Lists.*
pub use Words.*
pub use Prim.Native.Nat.{ℕ, zero, suc, ◌+◌, ◌-◌, ◌*◌, ◌/◌, ◌%◌, ◌^◌, ◌≤◌, ◌<◌, min}
pub use mathlib.Core.Path.{◌≡◌, refl, sym, ap, ◌∙◌}
pub use mathlib.Core.Logic.{◌≢◌, ◌↔◌, ◌⊎◌, inl, inr}
pub use mathlib.Core.Bool.{Bool, true, false, not, ◌&&◌, ◌||◌}
pub use mathlib.Core.Option.{Option, none, some}
pub use mathlib.Core.List.{List, [], ◌∷◌, ◌++◌}
pub use native.Mathlib.Omega.{arith}
unfoldable pub use native.Mathlib.Decide.{dec_lt, ℕ_discrete}
