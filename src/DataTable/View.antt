-- ===== src/DataTable/View.antt =====
-- What the frontend's table shows.
use scan_tls.Common.{
  eq_refl, ◌==◌, arith, Bool, true, none, Text, Text, Bool, true, false, List, Option, none, some,
  ◌==◌, filter, ◌≡◌, refl, All, All-filter_of, Perm, IsSorted, sort_by-perm, ◌↔◌, List,
}
use mathlib.Core.List.Perm
use scan_tls.Locale.{Locale}
use scan_tls.DataTable.{
  cycle, Column, SortState, row_kept, DataTableState, ordered_by, sorted_column, visible_data,
}
use scan_tls.DataTable.Order.{Keys, key_order, Reads, sort_by-key_order}
use scan_tls.DataTable.Filters.{AllKeep, row_kept_iff}

ordered_by-Perm {ℓ} :
    {A : Type ℓ}
    → (locale : Locale) (col : Option (Column A)) (s : Option SortState) (out : List A)
    → Perm (ordered_by locale col s out) out
unfolding ordered_by
ordered_by-Perm locale none s out = Perm.rfl
ordered_by-Perm locale (some col) none out = Perm.rfl
ordered_by-Perm locale (some col) (some s) out = sort_by-perm _ out

module _ {ℓ} {A : Type ℓ} where
  -- In every state the table shows the rows that every column keeps, each as often as it is given; a
  -- column keeps a row if it has no filter or no values, or if one of the row's values is among those
  -- chosen. A table that is not sorted shows them in the order given.
  pub visible_data-AllKeep :
      (locale : Locale) (columns : List (Column A)) (rows : List A) (state : DataTableState)
      (row : A)
      → Perm (visible_data locale columns rows state) (filter (row_kept state.filters columns) rows)
        × ((row_kept state.filters columns row ≡ true) ↔ AllKeep state.filters columns row)
        × (visible_data locale columns rows (record state { sort = none })
            ≡ filter (row_kept state.filters columns) rows)
  unfolding visible_data sorted_column ordered_by
  visible_data-AllKeep locale columns rows state row = (
    ordered_by-Perm locale (sorted_column columns state.sort) state.sort _,
    row_kept_iff state.filters columns row,
    refl,
  )

  -- Sorted by a column whose sort values are a text of each row, or a number of each, the rows that the
  -- table shows are in the order of these keys, the locale's or that of the numbers, from the first
  -- to the last where the sort ascends and from the last to the first where it descends.
  pub visible_data-IsSorted :
      (locale : Locale) (columns : List (Column A)) (rows : List A)
      (filters : List (Text × List Text)) (s : SortState) (col : Column A) (keys : Keys A)
      → sorted_column columns (some s) ≡ some col
      → All (Reads locale col keys) rows
      → IsSorted
          (key_order locale keys s.descending)
          (visible_data locale columns rows (record { sort = some s; filters = filters }))
  unfolding visible_data ordered_by
  visible_data-IsSorted locale columns rows filters s col keys found h = rw found (
      sort_by-key_order locale col keys s.descending (filter (row_kept filters columns) rows)
        (All-filter_of _ _ rows h))

sorted_by : Text → Option SortState → Bool
sorted_by key none = false
sorted_by key (some s) = s.key == key

-- Three clicks on a header that the table is not sorted by sort it ascending, then descending, then
-- not at all.
cycle_thrice :
    (key : Text) (s : Option SortState)
    → sorted_by key s ≡ false
    → (cycle key s ≡ some (record { key = key; descending = false }))
      × (cycle key (cycle key s) ≡ some (record { key = key; descending = true }))
      × (cycle key (cycle key (cycle key s)) ≡ none)
unfolding cycle sorted_by
cycle_thrice key none h = ground (arith, eq_refl key)
cycle_thrice key (some s) h = ground (arith, eq_refl key)
