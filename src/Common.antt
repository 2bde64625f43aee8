-- ===== src/Common.antt =====
-- Names that every module shares: the libraries', passed on, and those of the modules below.
mod Tests
mod Lists
mod Results
mod Tables
mod Chars
mod Parsing
mod Found
pub use Tests.*
pub use Lists.*
pub use Results.*
pub use Tables.*
unfoldable pub use Chars.*
unfoldable pub use Parsing.*
pub use Found.*
pub use Prim.Native.Nat.{ℕ, zero, suc, ◌+◌, ◌-◌, ◌*◌, ◌/◌, ◌%◌, ◌≤◌, ◌<◌, min, max}
pub use Prim.Native.String.{String}
pub use mathlib.Core.Path.{◌≡◌, refl, sym, ap, ◌∙◌}
pub use mathlib.Core.Logic.{◌≢◌, ◌↔◌, ◌⊎◌, inl, inr}
pub use mathlib.Core.Bool.{Bool, true, false, not, ◌&&◌, ◌||◌}
pub use mathlib.Core.Option.{Option, none, some}
pub use mathlib.Core.List.{List, [], ◌∷◌, ◌++◌, map}
pub use native.Mathlib.Omega.{arith}
pub use text.Mathlib.Text.{◌==◌ as ◌==ₛ◌}
pub use text.Mathlib.TextEquality.{eq_iff}
