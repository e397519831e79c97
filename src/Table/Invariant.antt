-- ===== src/Table/Invariant.antt =====
-- What the entries of the column menus do to the hidden values, and what the filters mean.
use scan_tls.Common.{
  Text, ℕ, zero, suc, Bool, true, false, List, [], ◌∷◌, map, foldl, any, not, eqb, ◌==◌, ◌&&◌, ◌||◌,
  or_else, get_elem?, eq_iff, mem_text-sort_by, mem_text-distinct, mem_text-append_distinct, ◌<◌,
  ◌≡◌, ◌↔◌, refl, ap, ◌∙◌, filter, length, length-map, mem_text, append_distinct, Perm, arith,
  if◌then◌else◌, Bool-cases, inl, inr,
}
use scan_tls.Locale.{Locale}
use scan_tls.Table.{
  TableState, initial_state, Row, row_visible, visible_rows, column_values, TableEvent,
  sort_ascending, sort_descending, clear_sort, toggle_value, select_all, clear_all, update_hidden,
  delete, cell_at, table_step, run_table,
}
use scan_tls.Table.Header.{hidden_at}
use scan_tls.Table.Filtering.{mem_text-add_all, NoneHidden, row_visible_from_iff, order_rows-perm}

-- Whether the column `index` hides the value behind an entry of the menus, if `before` says so in
-- front of it: a box hides or shows its own value, "Select all" shows every value, and "Clear all"
-- hides every value that a row has in the column.
abbrev pub hides : List Row → ℕ → Text → Bool → TableEvent → Bool
hides rows index t before (sort_ascending i) = before
hides rows index t before (sort_descending i) = before
hides rows index t before clear_sort = before
hides rows index t before (toggle_value i value checked) =
    if eqb i index && value == t then not checked else before
hides rows index t before (select_all i) = if eqb i index then false else before
hides rows index t before (clear_all i) =
    if eqb i index then before || any (λ row. cell_at row i == t) rows else before

mem_text-map :
    (f : Row → Text) (t : Text) (rows : List Row)
    → mem_text t (map f rows) ≡ any (λ row. f row == t) rows
unfolding mem_text
mem_text-map f t [] = refl
mem_text-map f t (row ∷ rows) = ap (λ b. f row == t || b) (mem_text-map f t rows)

mem_text-column_values :
    (locale : Locale) (rows : List Row) (i : ℕ) (t : Text)
    → mem_text t (column_values locale rows i) ≡ any (λ row. cell_at row i == t) rows
unfolding column_values
mem_text-column_values locale rows i t =
    mem_text-sort_by _ _ _ ∙ (mem_text-distinct _ _ ∙ mem_text-map (λ row. cell_at row i) t rows)

mem_text-delete :
    (value t : Text) (set : List Text)
    → mem_text t (delete value set) ≡ (not (value == t) && mem_text t set)
unfolding mem_text
mem_text-delete value t [] = ground arith
mem_text-delete value t (s ∷ ss) = elim (Bool-cases (s == value)) [
  | inl e ↦
      let same : s ≡ value = (eq_iff s value).0 e in
      rw (e, mem_text-delete value t ss, same) (ground arith)
  | inr e ↦ elim (Bool-cases (value == t)) [
    | inl f ↦
        let apart : (s == t) ≡ false = rw ((eq_iff value t).0 f) at e in
        rw (e, mem_text-delete value t ss, f, apart) refl
    | inr f ↦ rw (e, mem_text-delete value t ss, f) refl
  ]
]

mem_text-toggle :
    (value t : Text) (checked : Bool) (set : List Text)
    → mem_text t (if checked then delete value set else append_distinct set value)
      ≡ (if value == t then not checked else mem_text t set)
mem_text-toggle value t true set = mem_text-delete value t set ∙ ground arith
mem_text-toggle value t false set = mem_text-append_distinct t set value ∙ ground arith

module _ (f : List Text → List Text) where
  length-update_hidden :
      (i : ℕ) (hidden : List (List Text)) → length (update_hidden f i hidden) ≡ length hidden
  unfolding update_hidden
  length-update_hidden i [] = refl
  length-update_hidden zero (h ∷ hs) = refl
  length-update_hidden (suc i) (h ∷ hs) = ap suc (length-update_hidden i hs)

  -- One set is changed, and the others are not.
  get-update_hidden :
      (i j : ℕ) (hidden : List (List Text))
      → j < length hidden
      → or_else (get_elem? (update_hidden f i hidden) j) []
        ≡ (let set = or_else (get_elem? hidden j) [] in if eqb i j then f set else set)
  unfolding update_hidden
  get-update_hidden i j [] h = absurd (omega arith)
  get-update_hidden zero zero (s ∷ hs) h = refl
  get-update_hidden zero (suc j) (s ∷ hs) h =
      let apart : eqb zero (suc j) ≡ false = ground arith in rw apart refl
  get-update_hidden (suc i) zero (s ∷ hs) h =
      let apart : eqb (suc i) zero ≡ false = ground arith in rw apart refl
  get-update_hidden (suc i) (suc j) (s ∷ hs) h =
      let same : eqb (suc i) (suc j) ≡ eqb i j = ground arith in
      rw same (get-update_hidden i j hs (omega arith))

mem_text-if :
    (t : Text) (b : Bool) (x y : List Text)
    → mem_text t (if b then x else y) ≡ (if b then mem_text t x else mem_text t y)
mem_text-if t true x y = refl
mem_text-if t false x y = refl

if-and :
    (a b : Bool) (x y : Bool) → (if a then (if b then x else y) else y) ≡ (if a && b then x else y)
if-and true b x y = refl
if-and false b x y = refl

module _ (locale : Locale) (rows : List Row) (j : ℕ) (t : Text) where
  -- the value's fate in a column whose set is changed
  mem_text-update_hidden :
      (f : List Text → List Text) (i : ℕ) (state : TableState)
      → j < length state.hidden
      → mem_text t (hidden_at (record state { hidden = update_hidden f i state.hidden }) j)
        ≡ (if eqb i j then mem_text t (f (hidden_at state j)) else mem_text t (hidden_at state j))
  unfolding hidden_at
  mem_text-update_hidden f i state h =
      ap (mem_text t) (get-update_hidden f i j state.hidden h) ∙ mem_text-if t (eqb i j) _ _

  pub hidden_at-table_step :
      (state : TableState) (e : TableEvent)
      → j < length state.hidden
      → mem_text t (hidden_at (table_step locale rows state e) j)
        ≡ hides rows j t (mem_text t (hidden_at state j)) e
  unfolding table_step
  hidden_at-table_step state (sort_ascending i) h = unfold hidden_at in refl
  hidden_at-table_step state (sort_descending i) h = unfold hidden_at in refl
  hidden_at-table_step state clear_sort h = unfold hidden_at in refl
  hidden_at-table_step state (toggle_value i value checked) h =
      mem_text-update_hidden _ i state h
      ∙ ap (λ b. if eqb i j then b else mem_text t (hidden_at state j))
          (mem_text-toggle value t checked (hidden_at state j))
      ∙ if-and (eqb i j) (value == t) _ _
  hidden_at-table_step state (select_all i) h =
      mem_text-update_hidden (λ set. []) i state h ∙ unfold mem_text in refl
  hidden_at-table_step state (clear_all i) h =
      mem_text-update_hidden _ i state h
      ∙ ap (λ b. if eqb i j then b else mem_text t (hidden_at state j))
          (mem_text-add_all t (column_values locale rows i) (hidden_at state j)
            ∙ ap (λ b. mem_text t (hidden_at state j) || b)
                (mem_text-column_values locale rows i t))

  length-table_step :
      (state : TableState) (e : TableEvent)
      → length (table_step locale rows state e).hidden ≡ length state.hidden
  unfolding table_step
  length-table_step state (sort_ascending i) = refl
  length-table_step state (sort_descending i) = refl
  length-table_step state clear_sort = refl
  length-table_step state (toggle_value i value checked) = length-update_hidden _ i state.hidden
  length-table_step state (select_all i) = length-update_hidden _ i state.hidden
  length-table_step state (clear_all i) = length-update_hidden _ i state.hidden

  steps-hides :
      (events : List TableEvent) (state : TableState)
      → j < length state.hidden
      → mem_text t (hidden_at (foldl (table_step locale rows) state events) j)
        ≡ foldl (hides rows j t) (mem_text t (hidden_at state j)) events
  steps-hides [] state h = refl
  steps-hides (e ∷ events) state h =
      steps-hides events (table_step locale rows state e) (rw (length-table_step state e) h)
      ∙ ap (λ b. foldl (hides rows j t) b events) (hidden_at-table_step state e h)

get-empty :
    (headers : List Text) (j : ℕ)
    → or_else {A = List Text} (get_elem? (map (λ h. []) headers) j) [] ≡ []
get-empty [] j = refl
get-empty (h ∷ headers) zero = refl
get-empty (h ∷ headers) (suc j) = get-empty headers j

initial_state-shows :
    (headers : List Text) (j : ℕ) (t : Text)
    → mem_text t (hidden_at (initial_state headers) j) ≡ false
unfolding hidden_at initial_state mem_text
initial_state-shows headers j t = rw (get-empty headers j) refl

-- After any entries of its menus, a column of a table hides a value exactly if the entries say so, one
-- by one: the last box of the value in the column's menu, "Select all" or "Clear all" decides, the
-- entries of other columns, of other values and of the sort do not count, and a new table hides none.
pub run_table-hides :
    (locale : Locale) (headers : List Text) (rows : List Row) (events : List TableEvent) (j : ℕ)
    (t : Text)
    → j < length headers
    → mem_text t (hidden_at (run_table locale headers rows events) j)
      ≡ foldl (hides rows j t) false events
unfolding run_table initial_state
run_table-hides locale headers rows events j t h =
    steps-hides locale rows j t events (initial_state headers) (rw (length-map headers (λ h. [])) h)
    ∙ ap (λ b. foldl (hides rows j t) b events) (initial_state-shows headers j t)

module _ (locale : Locale) (rows : List Row) where
  -- The rows on screen are, in some order and each as often as given, the rows that no column hides;
  -- and a column hides a row exactly if the row's cell is among the column's hidden values.
  pub visible_rows_lem :
      (state : TableState) (row : Row)
      → Perm (visible_rows locale rows state) (filter (row_visible state) rows)
        × ((row_visible state row ≡ true) ↔ NoneHidden state.hidden 0 row)
  unfolding visible_rows
  visible_rows_lem state row = (
    order_rows-perm locale state.index state.descending (filter (row_visible state) rows),
    row_visible_from_iff state.hidden 0 row,
  )
