-- ===== src/Common.antt =====
-- The names that the other modules share: the libraries', passed on, and those of the children.
mod Tests
mod Lists
mod Sorting
mod Chars
mod TextOrder
mod Maps
mod Results
pub mod Decimal
unfoldable pub use Tests.{same, String-discrete, concat}
pub use Tests.*
pub use Lists.*
unfoldable pub use Sorting.{take, insert_by, sort_by}
pub use Sorting.{
  text_le, not_gt, length-take-le, All-filter, All-take, All-insert_by, All-sort_by,
  All-sort_by_back, length-sort_by,
}
pub use TextOrder.{Sorted, sort_by-Sorted, Least, text_le_trans, text_le_total, sort_by-Least}
unfoldable pub use Maps.{Dict, lookup, insert, keys, values, has_key, delete}
pub use Maps.{
  lookup-insert, lookup-insert_self, has_key-insert, has_key-delete, length-delete-lt,
  length-insert-le, has_key_of_lookup, dict_laws, lookup-insert_cases, lookup-insert_ne,
  lookup-any-values,
}
pub use Results.*
unfoldable pub use Chars.{codes, lstrip, rstrip, after_prefix, is_digest}
pub use Chars.{is_space, strip, is_hex, is_hex_digest, codes-concat, after_prefix-append}
pub use Prim.Native.Nat.{ℕ, zero, suc, ◌+◌, ◌-◌, ◌*◌, ◌/◌, ◌%◌, ◌≤◌, ◌<◌}
pub use Prim.Native.String.{String}
pub use mathlib.Core.Path.{◌≡◌, refl, sym, ap, ◌∙◌, subst}
pub use mathlib.Core.Logic.{◌≢◌, ◌↔◌, ◌⊎◌, inl, inr}
pub use mathlib.Core.Bool.{Bool, true, false, not, ◌&&◌, ◌||◌}
pub use mathlib.Core.Option.{Option, none, some}
pub use mathlib.Core.List.{List, [], ◌∷◌, ◌++◌}
pub use native.Mathlib.Omega.{arith}
pub use text.Mathlib.Text.{◌==◌}
pub use text.Mathlib.TextEquality.{eq_iff}
pub use text.Mathlib.TextPositions.{eq_refl}
