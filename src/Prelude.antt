-- ===== src/Prelude.antt =====
-- The names that the other modules share: the libraries', passed on, and those of the children.
mod Tests
mod Lists
mod Text
pub mod Paths
mod Maps
mod Errors
mod Words
pub mod Decimal
pub mod Io
pub use Tests.*
pub use Lists.*
pub use Errors.*
pub use Words.*
pub use Text.{
  Str, codes, str_eq_iff, str_eq_refl, has_prefix-append, NoSlash, split_head-append,
  split_rest-append, split_head-plain,
}
unfoldable pub use Text.{str_eq, has_prefix, split_head, split_rest, split_slash, trim_suffix}
pub use Maps.{Dict, lookup-insert, lookup-insert_self, lookup-insert_ne, insert-insert}
unfoldable pub use Maps.{lookup, insert}
pub use Prim.Native.Nat.{ℕ, zero, suc, ◌+◌, ◌-◌, ◌*◌, ◌/◌, ◌%◌, ◌^◌, ◌≤◌, ◌<◌}
pub use mathlib.Core.Path.{◌≡◌, refl, sym, ap, ◌∙◌}
pub use mathlib.Core.Logic.{◌≢◌, ◌↔◌, ◌⊎◌, inl, inr}
pub use mathlib.Core.Bool.{Bool, true, false, not, ◌&&◌, ◌||◌}
pub use mathlib.Core.Option.{Option, none, some}
pub use mathlib.Core.List.{List, [], ◌∷◌, ◌++◌, map}
pub use native.Mathlib.Omega.{arith}
