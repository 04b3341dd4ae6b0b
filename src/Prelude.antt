-- ===== src/Prelude.antt =====
-- The names that the other modules share: the libraries', passed on, and those of the children.
pub mod Tests
pub mod Lists
pub mod Int
pub mod Maps
pub mod Perms
pub use Tests.*
pub use Lists.*
pub use Perms.*
unfoldable pub use Tests.{str_eq}
pub use Maps.{
  GoMap, Distinct, lookup-insert, lookup-delete, insert-append, total-append, values-append,
  Distinct-append, delete_missing, delete-Distinct, total-delete, total_pos, total-ge,
}
unfoldable pub use Maps.{lookup, insert, delete, total, values}
pub use Prim.Native.Nat.{ℕ, zero, suc, ◌+◌, ◌-◌, ◌*◌, ◌/◌, ◌%◌, ◌^◌, ◌≤◌, ◌<◌, min, max}
pub use mathlib.Core.Path.{◌≡◌, refl, sym, ap, ◌∙◌}
pub use mathlib.Core.Logic.{◌≢◌, ◌↔◌, ◌⊎◌, inl, inr}
pub use mathlib.Core.Bool.{Bool, true, false, ◌&&◌, ◌||◌, not}
pub use mathlib.Core.Option.{Option, none, some}
pub use mathlib.Core.List.{List, [], ◌∷◌, ◌++◌, map, Perm}
pub use native.Mathlib.Omega.{arith}
