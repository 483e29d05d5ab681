-- ===== src/Common.antt =====
-- The names that the other modules share: the libraries', passed on, and those of the children.
mod Tests
mod Lists
mod Keyed
pub use Tests.*
pub use Lists.*
unfoldable pub use Lists.{count}
pub use Keyed.{All, DistinctBy, IsFresh, All-snoc, All-map, All-remove_by, All-find_by}
pub use Keyed.{DistinctBy-snoc, DistinctBy-remove_by, find_by-key, find_by-IsFresh, find_by-none}
pub use Keyed.{find_by-snoc_self, find_by-snoc_ne, remove_by-snoc_self}
pub use Keyed.{find_by-remove_self, find_by-remove_ne}
unfoldable pub use Keyed.{find_by, remove_by}
pub use Prim.Native.Nat.{ℕ, zero, suc, ◌+◌, ◌-◌, ◌*◌, ◌/◌, ◌%◌, ◌^◌, ◌≤◌, ◌<◌}
pub use mathlib.Core.Path.{◌≡◌, refl, sym, ap, ap₂, ◌∙◌}
pub use mathlib.Core.Logic.{◌≢◌, ◌↔◌, ◌⊎◌, inl, inr}
pub use mathlib.Core.Bool.{Bool, true, false, not, ◌&&◌, ◌||◌}
pub use mathlib.Core.Option.{Option, none, some}
pub use mathlib.Core.List.{List, [], ◌∷◌, ◌++◌, map, reverse}
pub use native.Mathlib.Omega.{arith}
