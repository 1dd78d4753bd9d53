-- ===== src/Base.antt =====
-- The names that the other modules share: the libraries', passed on, and those of the children
-- (tests and conditionals, lists, finite maps keyed by any type with a test of equality).
mod Tests
mod Lists
mod Maps
pub mod Int
pub mod Bytes
pub mod Decimal
pub mod Pigeonhole
pub use Tests.*
pub use Lists.*
unfoldable pub use Maps.{Map, lookup, insert, erase, contains, keys}
pub use Maps.{
  lookup-insert, lookup-insert_self, lookup-insert_ne, lookup-erase, contains-insert, map_laws,
}
pub use Prim.Native.Nat.{ℕ, zero, suc, ◌+◌, ◌-◌, ◌*◌, ◌/◌, ◌%◌, ◌^◌, ◌≤◌, ◌<◌}
pub use Prim.Native.String.{String}
pub use mathlib.Core.Path.{◌≡◌, refl, sym, ap, subst, ◌∙◌}
pub use mathlib.Core.Logic.{◌≢◌, ◌↔◌, ◌⊎◌, inl, inr}
pub use mathlib.Core.Bool.{Bool, true, false, not, ◌&&◌, ◌||◌}
pub use mathlib.Core.Option.{Option, none, some}
pub use mathlib.Core.List.{List, [], ◌∷◌, ◌++◌, map, append_assoc, append-nil}
pub use native.Mathlib.Omega.{arith}
