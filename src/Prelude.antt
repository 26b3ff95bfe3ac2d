-- ===== src/Prelude.antt =====
-- The names that the other modules share: the libraries', passed on, and those of the children.
mod Tests
mod Lists
mod Results
mod Strings
mod Maps
pub mod Int
pub mod Bits
pub use Results.*
pub use Tests.*
pub use Lists.*
unfoldable pub use Strings.{text_eq, has_suffix}
pub use Strings.{text_eq_iff, text_eq_refl, Text, Bytes, codes, IsBytes, contains_byte}
pub use Strings.{zero_bytes, length-zero_bytes, zero_bytes-zero}
unfoldable pub use Maps.{lookup, insert, remove, keep}
pub use Maps.{Assoc, lookup-insert, lookup-remove, length-insert-le, length-remove-le}
pub use Maps.{
  length-keep-le, lookup-keep, size, Every, Every-keep, Every-insert, Every-lookup, Every-mono,
}
pub use Prim.Native.Nat.{ℕ, zero, suc, ◌+◌, ◌-◌, ◌*◌, ◌/◌, ◌%◌, ◌^◌, ◌≤◌, ◌<◌, min}
pub use mathlib.Core.Path.{◌≡◌, refl, sym, ap, subst, ◌∙◌, fun_ext}
pub use mathlib.Core.Logic.{◌≢◌, ◌↔◌, ◌⊎◌, inl, inr}
pub use mathlib.Core.Bool.{Bool, true, false, not, ◌&&◌, ◌||◌}
pub use mathlib.Core.Option.{Option, none, some}
pub use mathlib.Core.List.{List, [], ◌∷◌, ◌++◌, map}
pub use native.Mathlib.Omega.{arith}
unfoldable pub use native.Mathlib.Decide.{dec_lt, dec_le}
