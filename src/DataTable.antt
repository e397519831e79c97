-- ===== src/DataTable.antt =====
-- frontend/src/components/DataTable.tsx: the table of the frontend's pages, whose headers sort and
-- filter. A cell's content and the popover's place are not modelled. `collator.compare` is the locale's
-- `natural`. `filters` is a list of keys with their sets; a key that is missing has no filter.
pub mod Order
pub mod Filters
pub mod View
mod Examples
use scan_tls.Common.{
  Text, str, Bool, true, false, not, List, [], ◌∷◌, map, Option, none, some, lookup, ◌==◌, ◌||◌,
  ◌&&◌, if◌then◌else◌, filter, find?, any, flat_map, distinct, join, mem_text, sort_by, Ordering,
  swap_order,
}
use scan_tls.Numbers.{Decimal, compare_decimal}
use scan_tls.Locale.{Locale}
use scan_tls.Hosts.{includes}

-- What a column sorts by: a number, with its `String`, or a text.
pub data SortValue : Type 0 where
  number : Decimal → Text → SortValue
  word : Text → SortValue

-- `String(x)`
abbrev pub string_of : SortValue → Text
string_of (number d t) = t
string_of (word t) = t

-- `Column<T>`, without what it draws
pub record Column {ℓ} (A : Type ℓ) : Type ℓ where
  pub key : Text
  pub values : Option (A → List Text)
  pub sort : Option (A → SortValue)

pub record SortState : Type 0 where
  pub key : Text
  pub descending : Bool

-- the state of the component
pub record DataTableState : Type 0 where
  pub sort : Option SortState
  pub filters : List (Text × List Text)

-- `!f.size`
abbrev pub empty_set : List Text → Bool
empty_set [] = true
empty_set (_ ∷ _) = false

-- the header button: `cycle`
unfoldable pub cycle : Text → Option SortState → Option SortState
cycle key none = some (record { key = key; descending = false })
cycle key (some s) =
    if s.key == key
    then (if s.descending then none else some (record { key = key; descending = true }))
    else some (record { key = key; descending = false })

-- the comparison of two sort values
unfoldable pub compare_keys : Locale → SortValue → SortValue → Ordering
unfolding compare_decimal
compare_keys locale (number x s) (number y t) = compare_decimal x y
compare_keys locale (number x s) (word t) = locale.natural s t
compare_keys locale (word s) y = locale.natural s (string_of y)

-- `dir === "asc" ? c : -c`
abbrev pub in_direction : Bool → Ordering → Ordering
in_direction true c = swap_order c
in_direction false c = c

module _ {ℓ} {A : Type ℓ} where
  -- `c.values?.(r) ?? []`
  abbrev pub values_of : Column A → A → List Text
  values_of c r = elim c.values [ none ↦ [] | some f ↦ f r ]

  -- `get`
  abbrev pub sort_value : Column A → A → SortValue
  sort_value c r = elim c.sort [ none ↦ word (join (str ", ") (values_of c r)) | some f ↦ f r ]

  -- the test of one column on a row
  unfoldable pub column_keeps : Option (List Text) → Option (A → List Text) → A → Bool
  column_keeps none values r = true
  column_keeps (some f) none r = true
  column_keeps (some f) (some values) r = empty_set f || any (λ v. mem_text v f) (values r)

  unfoldable pub row_kept : List (Text × List Text) → List (Column A) → A → Bool
  unfolding column_keeps
  row_kept filters [] r = true
  row_kept filters (c ∷ cs) r =
      column_keeps (lookup c.key filters) c.values r && row_kept filters cs r

  unfoldable pub compare_by : Locale → Column A → Bool → A → A → Ordering
  unfolding compare_keys
  compare_by locale col descending a b =
      in_direction descending (compare_keys locale (sort_value col a) (sort_value col b))

  unfoldable pub ordered_by : Locale → Option (Column A) → Option SortState → List A → List A
  unfolding compare_by
  ordered_by locale none s out = out
  ordered_by locale (some col) none out = out
  ordered_by locale (some col) (some s) out = sort_by (compare_by locale col s.descending) out

  -- `columns.find((c) => c.key === sort?.key)`
  unfoldable pub sorted_column : List (Column A) → Option SortState → Option (Column A)
  sorted_column columns none = none
  sorted_column columns (some s) = find? (λ (c : Column A). c.key == s.key) columns

  -- `visible`
  unfoldable pub visible_data : Locale → List (Column A) → List A → DataTableState → List A
  unfolding row_kept ordered_by sorted_column
  visible_data locale columns rows state =
      ordered_by locale (sorted_column columns state.sort) state.sort
        (filter (row_kept state.filters columns) rows)

  -- `options` of a column
  unfoldable pub column_options : Locale → List A → (A → List Text) → List Text
  column_options locale rows values = sort_by locale.natural (distinct (flat_map values rows))
