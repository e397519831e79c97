-- ===== src/Table/Filtering.antt =====
-- Which rows the table shows under its filters.
use scan_tls.Common.{
  ◌∙◌, filter-eq_nil, mem_text-sort_by, mem_text-distinct, All-imp, get_elem?, sort_by, Text, ℕ,
  zero, suc, ◌+◌, ◌<◌, Bool, true, false, not, List, [], ◌∷◌, ◌++◌, map, Option, none, some, ◌≡◌,
  ◌↔◌, refl, ap, All, get_elem?, length, mem_text, mem_text-append_distinct, mem_text_self,
  append_distinct, sort_by-perm, Perm, eq_refl, ◌||◌, arith,
}
use mathlib.Core.List.Perm
use scan_tls.Locale.{Locale}
use scan_tls.Table.{
  visible_rows, TableState, table_step, toggle_value, select_all, clear_all, column_values, Row,
  cell_at, no_values, row_visible_from, update_hidden, delete, add_all, order_rows,
}
use native.Mathlib.Nat.{zero-add}

column_test :
    (hidden : List Text) (t : Text)
    → ((no_values hidden || not (mem_text t hidden)) ≡ true) ↔ (mem_text t hidden ≡ false)
unfolding mem_text
column_test [] t = ground arith
column_test (h ∷ hs) t = ground arith

-- No cell of the row, from the column `index` on, is among the hidden values of its column.
abbrev pub NoneHidden : List (List Text) → ℕ → Row → Type 0
NoneHidden [] index row = Unit
NoneHidden (hidden ∷ rest) index row =
    (mem_text (cell_at row index) hidden ≡ false) × NoneHidden rest (suc index) row

pub row_visible_from_iff :
    (hidden : List (List Text)) (index : ℕ) (row : Row)
    → (row_visible_from hidden index row ≡ true) ↔ NoneHidden hidden index row
unfolding row_visible_from
row_visible_from_iff [] index row = (λ e. tt, λ h. refl)
row_visible_from_iff (hidden ∷ rest) index row = (
  λ e.
      ground
        (arith, column_test hidden (cell_at row index), row_visible_from_iff rest (suc index) row),
  λ h.
      ground
        (arith, column_test hidden (cell_at row index), row_visible_from_iff rest (suc index) row),
)

pub order_rows-perm :
    (locale : Locale) (index : Option ℕ) (descending : Bool) (shown : List Row)
    → Perm (order_rows locale index descending shown) shown
unfolding order_rows
order_rows-perm locale none descending shown = Perm.rfl
order_rows-perm locale (some index) descending shown = sort_by-perm _ shown

row_visible_from-empty :
    (headers : List Text) (index : ℕ) (row : Row)
    → row_visible_from (map (λ h. []) headers) index row ≡ true
unfolding row_visible_from
row_visible_from-empty [] index row = refl
row_visible_from-empty (h ∷ headers) index row = row_visible_from-empty headers (suc index) row

move_suc : (i index : ℕ) → suc i + index ≡ i + suc index
move_suc i index = omega arith

row_hidden_from :
    (f : List Text → List Text) (i : ℕ) (hidden : List (List Text)) (index : ℕ) (row : Row)
    → i < length hidden
    → ((set : List Text) → mem_text (cell_at row (i + index)) (f set) ≡ true)
    → row_visible_from (update_hidden f i hidden) index row ≡ false
unfolding row_visible_from update_hidden
row_hidden_from f i [] index row h k = absurd (omega arith)
row_hidden_from f zero (set ∷ hidden) index row h k =
    let hit : mem_text (cell_at row index) (f set) ≡ true = rw zero-add at (k set) in
    ground (arith, column_test (f set) (cell_at row index))
row_hidden_from f (suc i) (set ∷ hidden) index row h k =
    let later : (set : List Text) → mem_text (cell_at row (i + suc index)) (f set) ≡ true =
      λ set. rw (move_suc i index) at (k set) in
    ground (arith, row_hidden_from f i hidden (suc index) row (omega arith) later)

pub mem_text-add_all :
    (s : Text) (values set : List Text)
    → mem_text s (add_all values set) ≡ (mem_text s set || mem_text s values)
unfolding add_all mem_text
mem_text-add_all s [] set = ground arith
mem_text-add_all s (v ∷ values) set =
    ground
      (arith, mem_text-add_all s values (append_distinct set v), mem_text-append_distinct s set v)

cell-mem-cons :
    (index : ℕ) (row : Row) (values : List Text) (rows : List Row)
    → All (λ r. mem_text (cell_at r index) values ≡ true) rows
    → All (λ r. mem_text (cell_at r index) (cell_at row index ∷ values) ≡ true) rows
unfolding mem_text
cell-mem-cons index row values [] h = tt
cell-mem-cons index row values (r ∷ rows) (p, h) =
    (ground arith, cell-mem-cons index row values rows h)

cell-mem-map :
    (index : ℕ) (rows : List Row)
    → All (λ row. mem_text (cell_at row index) (map (λ r. cell_at r index) rows) ≡ true) rows
cell-mem-map index [] = tt
cell-mem-map index (row ∷ rest) = (
  mem_text_self (cell_at row index) (map (λ r. cell_at r index) rest),
  cell-mem-cons index row (map (λ r. cell_at r index) rest) rest (cell-mem-map index rest),
)

update_hidden-update_hidden :
    (f : List Text → List Text) (i : ℕ) (hidden : List (List Text))
    → update_hidden (λ set. []) i (update_hidden f i hidden) ≡ update_hidden (λ set. []) i hidden
unfolding update_hidden
update_hidden-update_hidden f i [] = refl
update_hidden-update_hidden f zero (set ∷ hidden) = refl
update_hidden-update_hidden f (suc i) (set ∷ hidden) =
    ap (◌∷◌ set) (update_hidden-update_hidden f i hidden)

delete-append :
    (value : Text) (set : List Text)
    → mem_text value set ≡ false
    → delete value (set ++ value ∷ []) ≡ set
unfolding mem_text
delete-append value [] h = rw (eq_refl value) refl
delete-append value (s ∷ ss) h = ground (arith, delete-append value ss)

delete-append_distinct :
    (value : Text) (set : List Text)
    → mem_text value set ≡ false
    → delete value (append_distinct set value) ≡ set
unfolding append_distinct
delete-append_distinct value set h = rw h (delete-append value set h)

update_hidden-restored :
    (value : Text) (set : List Text) (i : ℕ) (hidden : List (List Text))
    → mem_text value set ≡ false
    → get_elem? hidden i ≡ some set
    → update_hidden (delete value) i (update_hidden (λ s. append_distinct s value) i hidden)
      ≡ hidden
unfolding update_hidden
update_hidden-restored value set i [] h e = cc
update_hidden-restored value set zero (s ∷ hidden) h e =
    let same : s ≡ set = cc in ap (λ t. t ∷ hidden) (delete-append_distinct value s (rw same h))
update_hidden-restored value set (suc i) (s ∷ hidden) h e =
    ap (◌∷◌ s) (update_hidden-restored value set i hidden h e)

-- Select all in a column's menu undoes its boxes and its Clear all.
select_all-after :
    (locale : Locale) (rows : List Row) (s : TableState) (i : ℕ) (value : Text) (checked : Bool)
    → (table_step locale rows
          (table_step locale rows s (toggle_value i value checked))
          (select_all i)
        ≡ table_step locale rows s (select_all i))
      × (table_step locale rows (table_step locale rows s (clear_all i)) (select_all i)
          ≡ table_step locale rows s (select_all i))
unfolding table_step
select_all-after locale rows s i value checked = (
  ap (λ h. record s { hidden = h }) (update_hidden-update_hidden _ i s.hidden),
  ap (λ h. record s { hidden = h }) (update_hidden-update_hidden _ i s.hidden),
)

-- Clearing and setting the box of a value that its column does not hide leaves the table as it was.
toggle_value_twice :
    (locale : Locale) (rows : List Row) (s : TableState) (i : ℕ) (value : Text) (set : List Text)
    → mem_text value set ≡ false
    → get_elem? s.hidden i ≡ some set
    → table_step locale rows
        (table_step locale rows s (toggle_value i value false))
        (toggle_value i value true)
      ≡ s
unfolding table_step
toggle_value_twice locale rows s i value set h e =
    ap (λ k. record s { hidden = k }) (update_hidden-restored value set i s.hidden h e)

-- Each row's cell is among the values of its column's menu.
cell-mem-column_values :
    (locale : Locale) (index : ℕ) (rows : List Row)
    → All (λ row. mem_text (cell_at row index) (column_values locale rows index) ≡ true) rows
unfolding column_values
cell-mem-column_values locale index rows =
    All-imp (λ row h. mem_text-sort_by _ _ _ ∙ (mem_text-distinct _ _ ∙ h)) rows
      (cell-mem-map index rows)

order_rows-nil :
    (locale : Locale) (index : Option ℕ) (descending : Bool)
    → order_rows locale index descending [] ≡ []
unfolding order_rows sort_by
order_rows-nil locale none descending = refl
order_rows-nil locale (some index) descending = refl

add_zero : (i : ℕ) → i + 0 ≡ i
add_zero i = omega arith

or-true : (b : Bool) → (b || true) ≡ true
or-true b = ground arith

-- Clear all in the menu of a column of the table hides every row.
visible_rows-clear_all :
    (locale : Locale) (rows : List Row) (s : TableState) (i : ℕ)
    → i < length s.hidden
    → visible_rows locale rows (table_step locale rows s (clear_all i)) ≡ []
unfolding visible_rows table_step
visible_rows-clear_all locale rows s i h =
    ap (order_rows locale s.index s.descending)
      (filter-eq_nil _ rows (All-imp hides rows (cell-mem-column_values locale i rows)))
    ∙ order_rows-nil locale s.index s.descending
  where
    hides :
        (row : Row)
        → mem_text (cell_at row i) (column_values locale rows i) ≡ true
        → row_visible_from (update_hidden (add_all (column_values locale rows i)) i s.hidden) 0 row
          ≡ false
    hides row m = row_hidden_from (add_all (column_values locale rows i)) i s.hidden 0 row h (λ set.
        rw (add_zero i, mem_text-add_all (cell_at row i) (column_values locale rows i) set, m)
          (or-true (mem_text (cell_at row i) set)))
