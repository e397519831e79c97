-- ===== src/Table/Examples.antt =====
-- Runs of the table and of its menu, and their theorems at concrete inputs.
use scan_tls.Common.{
  Perm, filter, mem_text, foldl, ◌==◌, arith, if◌then◌else◌, ◌↔◌, Text, str, true, false, List, [],
  ◌∷◌, some, ◌≡◌, refl, IsSorted, sort_by, insert_by,
}
use scan_tls.Locale.{plain_locale}
use scan_tls.Numbers.{Decimal, to_number, compare_decimal}
use scan_tls.Table.{
  run_table, TableEvent, row_visible, sort_descending, trim, is_numeric, numeric_part,
  compare_values, compare_rows, TableState, initial_state, Row, cell_at, row_visible_from,
  order_rows, visible_rows, table_step, toggle_value, clear_all, sort_ascending,
}
use scan_tls.Table.Filtering.{NoneHidden}
use scan_tls.Table.Header.{hidden_at, mark_of, up, idle}
use scan_tls.Table.Invariant.{hides, run_table-hides, visible_rows_lem}
use scan_tls.Table.Sorting.{IsWord, CellReads, value_order, order_rows-words, order_rows-numbers}
use scan_tls.Table.Menu.{
  MenuState, run_menu, no_menu, menu_step, click, scroll, IsConsistent, run_menu-IsConsistent,
}

abbrev headers : List Text
headers = str "Host" ∷ str "Findings" ∷ []

abbrev rows : List Row
rows = (str "web" ∷ str "10" ∷ []) ∷ (str "mail" ∷ str "9" ∷ []) ∷ (str "dns" ∷ str "-" ∷ []) ∷ []

abbrev numbers : List Row
numbers = (str "web" ∷ str "10" ∷ []) ∷ (str "mail" ∷ str "9" ∷ []) ∷ []

abbrev start : TableState
start = initial_state headers

web-IsWord : IsWord (str "web")
unfolding trim is_numeric
web-IsWord = record { not_blank = refl; no_digits = (refl, (refl, (refl, tt))) }

mail-IsWord : IsWord (str "mail")
unfolding trim is_numeric
mail-IsWord = record { not_blank = refl; no_digits = (refl, (refl, (refl, (refl, tt)))) }

dns-IsWord : IsWord (str "dns")
unfolding trim is_numeric
dns-IsWord = record { not_blank = refl; no_digits = (refl, (refl, (refl, tt))) }

abbrev ten : Decimal
ten = record { negative = false; mantissa = 10; scale = 0 }

abbrev nine : Decimal
nine = record { negative = false; mantissa = 9; scale = 0 }

-- the findings of a row
abbrev findings_of : Row → Decimal
findings_of row = if cell_at row 1 == str "9" then nine else ten

ten_read : CellReads plain_locale 1 findings_of (str "web" ∷ str "10" ∷ [])
unfolding trim numeric_part to_number is_numeric cell_at ◌==◌
ten_read = record { not_blank = refl; has_digits = refl; reads = refl }

nine_read : CellReads plain_locale 1 findings_of (str "mail" ∷ str "9" ∷ [])
unfolding trim numeric_part to_number is_numeric cell_at ◌==◌
nine_read = record { not_blank = refl; has_digits = refl; reads = refl }

order_rows-words_example : order_rows plain_locale (some 0) false rows ≡ rows
unfolding cell_at
order_rows-words_example =
    order_rows-words plain_locale 0 false rows (web-IsWord, (mail-IsWord, (dns-IsWord, tt)))

order_rows-numbers_example :
    Perm (order_rows plain_locale (some 1) true numbers) numbers
    × IsSorted (value_order findings_of true) (order_rows plain_locale (some 1) true numbers)
order_rows-numbers_example =
    order_rows-numbers plain_locale 1 findings_of true numbers (ten_read, (nine_read, tt))

run_menu-IsConsistent_example :
    IsConsistent (run_menu no_menu (click 3 ∷ click 5 ∷ scroll ∷ click 3 ∷ []))
run_menu-IsConsistent_example = run_menu-IsConsistent (click 3 ∷ click 5 ∷ scroll ∷ click 3 ∷ [])

abbrev third_open : MenuState
third_open = menu_step no_menu (click 3)

third_open_runs : third_open.open_menu ≡ some 3
unfolding menu_step
third_open_runs = refl

sort_runs :
    visible_rows plain_locale numbers (table_step plain_locale numbers start (sort_ascending 1))
    ≡ (str "mail" ∷ str "9" ∷ []) ∷ (str "web" ∷ str "10" ∷ []) ∷ []
unfolding visible_rows table_step sort_by row_visible_from initial_state insert_by compare_rows
    compare_values to_number numeric_part trim cell_at is_numeric compare_decimal
sort_runs = refl

abbrev entries : List TableEvent
entries = clear_all 1 ∷ sort_descending 0 ∷ toggle_value 1 (str "9") true ∷ []

run_table-hides_example :
    mem_text (str "10") (hidden_at (run_table plain_locale headers rows entries) 1)
    ≡ foldl (hides rows 1 (str "10")) false entries
run_table-hides_example =
    run_table-hides plain_locale headers rows entries 1 (str "10") (omega arith)

ten_hidden : foldl (hides rows 1 (str "10")) false entries ≡ true
unfolding ◌==◌ cell_at
ten_hidden = refl

nine_shown : foldl (hides rows 1 (str "9")) false entries ≡ false
unfolding ◌==◌ cell_at
nine_shown = refl

abbrev only_nine : TableState
only_nine =
    table_step plain_locale rows (table_step plain_locale rows start (clear_all 1))
      (toggle_value 1 (str "9") true)

visible_rows_lem_example :
    Perm (visible_rows plain_locale rows only_nine) (filter (row_visible only_nine) rows)
    × ((row_visible only_nine (str "mail" ∷ str "9" ∷ []) ≡ true)
        ↔ NoneHidden only_nine.hidden 0 (str "mail" ∷ str "9" ∷ []))
visible_rows_lem_example = visible_rows_lem plain_locale rows only_nine (str "mail" ∷ str "9" ∷ [])

idle-mark : mark_of start 0 ≡ idle
unfolding mark_of initial_state
idle-mark = refl

up-mark : mark_of (table_step plain_locale rows start (sort_ascending 1)) 1 ≡ up
unfolding mark_of initial_state table_step
up-mark = refl
