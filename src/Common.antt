-- ===== src/Common.antt =====
-- The names that the other modules share: the libraries', passed on, and those of the children.
mod Tests
mod Lists
mod Texts
mod Sorting
pub use Tests.*
pub use Lists.*
mod Grouping
pub mod GroupOrder
mod Distinct
pub use Distinct.*
unfoldable pub use Texts.{
  ◌==◌, mem_text, append_distinct, distinct_from, distinct, join, lookup, is_space,
}
pub use Texts.{
  Text, str, ◌:>◌, eq_iff, eq_refl, eq_false, mem_text-append, mem_text_self, is_empty, or_text,
}
unfoldable pub use Grouping.{push_member, group_from, group_by}
pub use Grouping.*
unfoldable pub use Sorting.{insert_by, sort_by}
pub use Sorting.{
  swap_order, then_by, gtb, IsPreorder, IsSorted, sort_by-perm, sort_by-IsSorted, All-sort_by,
  sort_by-nonempty, filter-sort_by, sort_by-eq_self, IsSorted-of_ties, IsSorted-take, IsSorted-imp,
  mem_text-sort_by, then_by-IsPreorder, on_nat-IsPreorder, reverse-IsPreorder, on-IsPreorder,
}
pub use Prim.Native.Nat.{ℕ, zero, suc, ◌+◌, ◌-◌, ◌*◌, ◌/◌, ◌%◌, ◌≤◌, ◌<◌, compare, Ordering}
pub use mathlib.Core.Path.{◌≡◌, refl, sym, ap, ◌∙◌}
pub use mathlib.Core.Logic.{◌≢◌, ◌↔◌, ◌⊎◌, inl, inr}
pub use mathlib.Core.Bool.{Bool, true, false, not, ◌&&◌, ◌||◌}
pub use mathlib.Core.Option.{Option, none, some}
pub use mathlib.Core.List.{List, [], ◌∷◌, ◌++◌, map, Perm}
pub use native.Mathlib.Omega.{arith}
