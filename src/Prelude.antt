-- ===== src/Prelude.antt =====
-- The names that the components share: the libraries', passed on, and those of the children.
pub mod Tests
pub mod Lists
pub mod Text
pub mod Effects
pub mod Table
pub mod Counts
pub mod Int
pub mod Options
pub mod Substring
pub mod Sorting
pub mod Sorted
pub mod Dict
pub mod Outcomes
pub mod Floats
pub mod Cents
pub mod Permuted
pub mod Slices
pub mod Ascii
pub mod Lexicographic
pub mod Words
pub mod Members
pub use Tests.*
pub use Lists.*
pub use Int.*
pub use Effects.*
unfoldable pub use Text.{strip, is_blank, len, cut}
pub use Text.{len-cut}
pub use Prim.Native.Nat.{ℕ, zero, suc, ◌+◌, ◌-◌, ◌*◌, ◌/◌, ◌≤◌, ◌<◌}
pub use Prim.Native.String.{String}
pub use mathlib.Core.Path.{◌≡◌, refl, sym, ap, ◌∙◌}
pub use mathlib.Core.Logic.{◌≢◌, ◌↔◌, ◌⊎◌, inl, inr}
pub use mathlib.Core.Bool.{Bool, true, false, not, ◌&&◌, ◌||◌}
pub use mathlib.Core.Option.{Option, none, some}
pub use mathlib.Core.List.{List, [], ◌∷◌, ◌++◌, map, reverse}
pub use native.Mathlib.Omega.{arith}
pub use text.Mathlib.Text.{◌==◌}
pub use text.Mathlib.TextEquality.{eq_iff}
pub use text.Mathlib.TextPositions.{eq_refl}
