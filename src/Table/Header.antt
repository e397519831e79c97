-- ===== src/Table/Header.antt =====
-- tls_scanner/exports/assets/html/js/report.js: what `applyState` writes into the header cells of a
-- table, and the list of values in a column's menu (`renderList` of `buildMenu`).
use scan_tls.Common.{
  length, length-map, length-take, All-take, All-filter_of, ◌≤◌, arith, Text, ℕ, Bool, true, false,
  not, List, [], ◌∷◌, map, Option, none, some, or_else, get_elem?, ◌≡◌, refl, All, All-imp, filter,
  take, mem_text, mem_text_self, eqb, arith, if◌then◌else◌,
}
use scan_tls.Hosts.{includes}
use scan_tls.Locale.{Locale}
use scan_tls.Table.{TableState, Row, trim, no_values, column_values}

-- `state.hidden[index]`; there is one for each header
unfoldable pub hidden_at : TableState → ℕ → List Text
hidden_at state index = or_else (get_elem? state.hidden index) []

-- `state.index === index`
unfoldable pub is_sorted_by : TableState → ℕ → Bool
is_sorted_by state index = elim state.index [ none ↦ false | some i ↦ eqb i index ]

-- The attribute `aria-sort` of a header cell; `none` is that it is removed.
pub data AriaSort : Type 0 where
  ascending descending : AriaSort

abbrev pub direction_of : Bool → AriaSort
direction_of true = descending
direction_of false = ascending

unfoldable pub aria_sort : TableState → ℕ → Option AriaSort
unfolding is_sorted_by
aria_sort state index =
    if is_sorted_by state index then some (direction_of state.descending) else none

-- The mark of a header cell: a dot, a triangle up or down, or a small triangle.
pub data Mark : Type 0 where
  filtered up down idle : Mark

-- `mark.textContent`
unfoldable pub mark_of : TableState → ℕ → Mark
unfolding is_sorted_by hidden_at
mark_of state index =
    if not (no_values (hidden_at state index))
    then filtered
    else if is_sorted_by state index
    then (if state.descending then down else up)
    else idle

-- A line of the list: its value and whether its box is checked.
pub record MenuItem : Type 0 where
  pub value : Text
  pub checked : Bool

abbrev pub menu_item : List Text → Text → MenuItem
menu_item hidden value = record { value = value; checked = not (mem_text value hidden) }

-- the values that `renderList` keeps for the text of the search field
unfoldable pub listed_values : Locale → List Text → Text → List Text
unfolding trim includes
listed_values locale values query =
    take 300 (filter (λ value. includes (locale.lower value) (locale.lower (trim query))) values)

-- `renderList`
unfoldable pub menu_items : Locale → List Row → TableState → ℕ → Text → List MenuItem
unfolding hidden_at listed_values column_values
menu_items locale rows state index query =
    map (menu_item (hidden_at state index))
      (listed_values locale (column_values locale rows index) query)

mem_text-All : (ss : List Text) → All (λ s. mem_text s ss ≡ true) ss
unfolding mem_text
mem_text-All [] = tt
mem_text-All (s ∷ ss) = (mem_text_self s ss, All-imp (λ t h. ground arith) ss (mem_text-All ss))

-- A line of the list is a value of the column, and its box is checked exactly if the value is shown.
abbrev pub IsItem : List Text → List Text → MenuItem → Type 0
IsItem values hidden item =
    (mem_text item.value values ≡ true) × (item.checked ≡ not (mem_text item.value hidden))

items-IsItem :
    (values hidden vs : List Text)
    → All (λ v. mem_text v values ≡ true) vs
    → All (IsItem values hidden) (map (menu_item hidden) vs)
items-IsItem values hidden [] h = tt
items-IsItem values hidden (v ∷ vs) (m, h) = ((m, refl), items-IsItem values hidden vs h)

-- The list of a column's menu has at most 300 lines, each a value of the column, with its box checked
-- exactly if the value is not hidden.
menu_items_lem :
    (locale : Locale) (rows : List Row) (state : TableState) (index : ℕ) (query : Text)
    → All
        (IsItem (column_values locale rows index) (hidden_at state index))
        (menu_items locale rows state index query)
      × (length (menu_items locale rows state index query) ≤ 300)
unfolding menu_items listed_values
menu_items_lem locale rows state index query =
    let values = column_values locale rows index in
    let found =
      filter (λ value. includes (locale.lower value) (locale.lower (trim query))) values in
    (
      items-IsItem values (hidden_at state index) (take 300 found)
          (All-take _ 300 found (All-filter_of _ _ values (mem_text-All values))),
      omega (
        arith,
        length-map (take 300 found) (menu_item (hidden_at state index)),
        length-take 300 found,
      ),
    )
