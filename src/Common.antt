-- ===== src/Common.antt =====
-- Names that every module of the library shares: the libraries', passed on, with Boolean tests,
-- lists over the native numbers, signed numbers and results of fallible calls.
mod Tests
mod Lists
mod Int
mod Results
mod Sorting
mod Counting
mod Bytes
pub use Tests.*
pub use Lists.*
pub use Int.*
pub use Results.*
pub use Sorting.*
pub use Counting.*
pub use Bytes.*
pub use Prim.Native.Nat.{ℕ, zero, suc, ◌+◌, ◌-◌, ◌*◌, ◌/◌, ◌%◌, ◌^◌, ◌≤◌, ◌<◌}
pub use Prim.Native.String.{String}
pub use mathlib.Core.Path.{◌≡◌, refl, sym, ap, subst, ◌∙◌}
pub use mathlib.Core.Logic.{◌≢◌, ◌↔◌, ◌⊎◌, inl, inr}
pub use mathlib.Core.Bool.{Bool, true, false, not, ◌&&◌, ◌||◌}
pub use mathlib.Core.Option.{Option, none, some}
pub use mathlib.Core.List.{List, [], ◌∷◌, ◌++◌, map}
pub use native.Mathlib.Omega.{arith}
pub use text.Mathlib.Text.{◌==◌ as str_eq}
pub use text.Mathlib.TextEquality.{eq_iff}
