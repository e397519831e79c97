-- ===== src/DataTable/Examples.antt =====
-- Runs of the frontend's table, and its theorems at concrete inputs.
use scan_tls.Common.{
  Text, str, ℕ, true, false, List, [], ◌∷◌, none, some, ◌≡◌, refl, ◌==◌, filter, Perm, IsSorted,
  sort_by, insert_by, lookup, mem_text, ◌↔◌,
}
use scan_tls.Locale.{plain_locale}
use scan_tls.Numbers.{Decimal}
use scan_tls.DataTable.{
  SortValue, number, Column, SortState, DataTableState, row_kept, sorted_column, visible_data,
}
use scan_tls.DataTable.View.{visible_data-AllKeep, visible_data-IsSorted}
use scan_tls.DataTable.Order.{key_order, numbers}
use scan_tls.DataTable.Filters.{AllKeep}

-- A target of the example: its name and the number of its runs.
record Target : Type 0 where
  name : Text
  runs : ℕ

abbrev runs_of : Target → SortValue
runs_of t = number (record { negative = false; mantissa = t.runs; scale = 0 }) []

abbrev columns : List (Column Target)
columns =
    record { key = str "name"; values = some (λ t. t.name ∷ []); sort = none }
    ∷ record { key = str "runs"; values = none; sort = some runs_of }
    ∷ []

abbrev runs_column : Column Target
runs_column = record { key = str "runs"; values = none; sort = some runs_of }

abbrev web : Target
web = record { name = str "web"; runs = 2 }

abbrev mail : Target
mail = record { name = str "mail"; runs = 7 }

abbrev dns : Target
dns = record { name = str "dns"; runs = 5 }

abbrev targets : List Target
targets = web ∷ mail ∷ dns ∷ []

abbrev most_runs : SortState
most_runs = record { key = str "runs"; descending = true }

abbrev two_names : List (Text × List Text)
two_names = (str "name", str "dns" ∷ str "mail" ∷ []) ∷ []

abbrev days_value : ℕ → Decimal
days_value n = record { negative = false; mantissa = n; scale = 0 }

abbrev chosen : DataTableState
chosen = record { sort = some most_runs; filters = two_names }

visible_data-AllKeep_example :
    Perm
      (visible_data plain_locale columns targets chosen)
      (filter (row_kept two_names columns) targets)
    × ((row_kept two_names columns dns ≡ true) ↔ AllKeep two_names columns dns)
    × (visible_data plain_locale columns targets (record chosen { sort = none })
        ≡ filter (row_kept two_names columns) targets)
visible_data-AllKeep_example = visible_data-AllKeep plain_locale columns targets chosen dns

visible_data-IsSorted_example :
    IsSorted (key_order plain_locale (numbers (λ t. days_value t.runs)) true) (
      visible_data plain_locale columns targets
        (record { sort = some most_runs; filters = two_names }))
unfolding sorted_column ◌==◌
visible_data-IsSorted_example =
    visible_data-IsSorted plain_locale columns targets two_names most_runs runs_column
      (numbers (λ t. days_value t.runs)) refl (([], refl), (([], refl), (([], refl), tt)))

most_runs_run :
    visible_data plain_locale columns targets
      (record { sort = some most_runs; filters = two_names })
    ≡ mail ∷ dns ∷ []
unfolding visible_data sort_by insert_by lookup mem_text ◌==◌
most_runs_run = refl
