-- ===== src/Table.antt =====
-- tls_scanner/exports/assets/html/js/report.js, the sortable and filterable table: `compareValues`,
-- and `table` with its state, the entries of its column menus and `applyState`. A cell is the text
-- that `cellText` reads from it. The menus themselves are in Table/Menu.
pub mod Filtering
pub mod Sorting
pub mod Menu
pub mod Invariant
pub mod Header
mod Examples
use scan_tls.Common.{
  foldl, Text, str, ℕ, zero, suc, Bool, true, false, not, List, [], ◌∷◌, ◌++◌, map, Option, none,
  some, eqb, leb, filter, get_elem?, or_else, mem_text, append_distinct, distinct, ◌==◌, ◌&&◌, ◌||◌,
  is_empty, is_space, if◌then◌else◌, Ordering, swap_order, sort_by,
}
use mathlib.Core.List.{reverse}
use scan_tls.Locale.{Locale}
use scan_tls.Numbers.{to_number, compare_decimal, is_digit}

pub drop_space : Text → Text
unfolding is_space
drop_space [] = []
drop_space (c ∷ s) = if is_space c then drop_space s else c ∷ s

-- `text.trim()`
unfoldable pub trim : Text → Text
unfolding drop_space
trim s = reverse (drop_space (reverse (drop_space s)))

-- the characters that `.replace(/[^0-9.-]/g, '')` keeps
unfoldable pub is_numeric : ℕ → Bool
is_numeric c = is_digit c || eqb c b'.' || eqb c b'-'

unfoldable pub numeric_part : Text → Text
numeric_part s = filter is_numeric s

-- the comparison behind the two `trim` calls
pub compare_trimmed : Locale → Text → Text → Ordering
compare_trimmed locale left right = elim (to_number locale.double (numeric_part left)) [
  | none ↦ locale.natural left right
  | some x ↦ elim (to_number locale.double (numeric_part right)) [
    | none ↦ locale.natural left right
    | some y ↦
        if not (is_empty left) && not (is_empty right)
        then compare_decimal x y
        else locale.natural left right
  ]
]

-- `compareValues`
pub compare_values : Locale → Text → Text → Ordering
unfolding compare_trimmed
compare_values locale a b = compare_trimmed locale (trim a) (trim b)

-- `state`: the column of the sort, or none (-1); whether `direction` is -1; and for each column the
-- hidden values.
pub record TableState : Type 0 where
  pub index : Option ℕ
  pub descending : Bool
  pub hidden : List (List Text)

-- `{index:-1, direction:1, hidden:headers.map(() => new Set())}`
pub initial_state : List Text → TableState
initial_state headers = record { index = none; descending = false; hidden = map (λ h. []) headers }

abbrev pub Row : Type 0
Row = List Text

-- `cellText(cells[index])`; a cell that is not there reads `-`
pub cell_at : Row → ℕ → Text
cell_at row index = or_else (get_elem? row index) (str "-")

abbrev pub no_values : List Text → Bool
no_values [] = true
no_values (_ ∷ _) = false

-- the test of the row filter of `applyState`, from the column `index` on
pub row_visible_from : List (List Text) → ℕ → Row → Bool
row_visible_from [] index row = true
row_visible_from (hidden ∷ rest) index row =
    (no_values hidden || not (mem_text (cell_at row index) hidden))
    && row_visible_from rest (suc index) row

abbrev pub row_visible : TableState → Row → Bool
row_visible state row = row_visible_from state.hidden 0 row

-- `compareValues(…) * state.direction`
abbrev pub directed : Bool → Ordering → Ordering
directed true c = swap_order c
directed false c = c

pub compare_rows : Locale → ℕ → Bool → Row → Row → Ordering
compare_rows locale index descending a b =
    directed descending (compare_values locale (cell_at a index) (cell_at b index))

-- the `if(state.index >= 0)` of `applyState`
pub order_rows : Locale → Option ℕ → Bool → List Row → List Row
order_rows locale none descending shown = shown
order_rows locale (some index) descending shown =
    sort_by (compare_rows locale index descending) shown

-- the rows that `applyState` renders
pub visible_rows : Locale → List Row → TableState → List Row
unfolding order_rows
visible_rows locale rows state =
    order_rows locale state.index state.descending (filter (row_visible state) rows)

-- `values` of a column's menu
pub column_values : Locale → List Row → ℕ → List Text
column_values locale rows index =
    sort_by (compare_values locale) (distinct (map (λ row. cell_at row index) rows))

-- What the entries of a column's menu do to the state. `toggle_value` carries `box.checked`.
pub data TableEvent : Type 0 where
  sort_ascending sort_descending : ℕ → TableEvent
  clear_sort : TableEvent
  toggle_value : ℕ → Text → Bool → TableEvent
  select_all clear_all : ℕ → TableEvent

-- `state.hidden[index] = f(state.hidden[index])`
pub update_hidden : (List Text → List Text) → ℕ → List (List Text) → List (List Text)
update_hidden f index [] = []
update_hidden f zero (h ∷ hs) = f h ∷ hs
update_hidden f (suc index) (h ∷ hs) = h ∷ update_hidden f index hs

-- `set.delete(value)`
abbrev pub delete : Text → List Text → List Text
delete value set = filter (λ v. not (v == value)) set

pub add_all : List Text → List Text → List Text
add_all [] set = set
add_all (v ∷ values) set = add_all values (append_distinct set v)

pub table_step : Locale → List Row → TableState → TableEvent → TableState
unfolding update_hidden add_all
table_step locale rows state (sort_ascending index) = record state {
  index = some index;
  descending = false;
}
table_step locale rows state (sort_descending index) = record state {
  index = some index;
  descending = true;
}
table_step locale rows state clear_sort = record state { index = none }
table_step locale rows state (toggle_value index value checked) = record state {
  hidden =
      update_hidden (λ set. if checked then delete value set else append_distinct set value) index
        state.hidden;
}
table_step locale rows state (select_all index) = record state {
  hidden = update_hidden (λ set. []) index state.hidden;
}
table_step locale rows state (clear_all index) = record state {
  hidden = update_hidden (add_all (column_values locale rows index)) index state.hidden;
}

-- The state after a sequence of entries, from a new table.
unfoldable pub run_table : Locale → List Text → List Row → List TableEvent → TableState
unfolding table_step initial_state
run_table locale headers rows events = foldl (table_step locale rows) (initial_state headers) events
