-- ===== src/Table/Sorting.antt =====
-- What the order of the table's rows is: right for columns of numbers, none for columns of words.
use scan_tls.Common.{
  Text, ℕ, Bool, true, false, List, some, ◌≡◌, refl, ◌∙◌, ap, All, filter-eq_nil, is_empty, arith,
  Ordering, swap_order, gtb, IsPreorder, IsSorted, sort_by-IsSorted, sort_by-eq_self,
  IsSorted-of_ties, IsSorted-imp, All-sort_by, sort_by, sort_by-perm, Perm, sym, compare,
  on-IsPreorder, reverse-IsPreorder,
}
use native.Mathlib.Nat.{add_comm}
use scan_tls.Locale.{Locale, Anything}
use scan_tls.Numbers.{Decimal, to_number, compare_decimal}
use scan_tls.Numbers.Order.{compare_decimal-IsPreorder}
use scan_tls.Table.{
  trim, is_numeric, numeric_part, compare_trimmed, compare_values, compare_rows, cell_at, Row,
  order_rows, directed,
}

-- A text without digits, points and hyphens, that is not blank.
pub record IsWord (t : Text) : Type 0 where
  pub not_blank : is_empty (trim t) ≡ false
  pub no_digits : All (λ c. is_numeric c ≡ false) (trim t)

-- A text whose digits, points and hyphens, read together, are the number: there are some of them.
pub record ReadsAs (locale : Locale) (t : Text) (value : Decimal) : Type 0 where
  pub not_blank : is_empty (trim t) ≡ false
  pub has_digits : is_empty (numeric_part (trim t)) ≡ false
  pub reads : to_number locale.double (numeric_part (trim t)) ≡ some value

-- The value that the empty text reads as.
abbrev zero_decimal : Decimal
zero_decimal = record { negative = false; mantissa = 0; scale = 0 }

compare_self : (m n : ℕ) → m ≡ n → compare m n ≡ Ordering.eq
compare_self m n e = ground arith

decimal_ties : (d : Decimal) → compare_decimal d d ≡ Ordering.eq
unfolding compare_decimal
decimal_ties d = compare_self _ _ (add_comm _ _)

reads_zero :
    (locale : Locale) (t : Text)
    → IsWord t
    → to_number locale.double (numeric_part (trim t)) ≡ some (locale.double zero_decimal)
unfolding numeric_part to_number
reads_zero locale t w = rw (filter-eq_nil _ _ w.no_digits) refl

compare_trimmed-decimals :
    (locale : Locale) (left right : Text) (x y : Decimal)
    → is_empty left ≡ false
    → is_empty right ≡ false
    → to_number locale.double (numeric_part left) ≡ some x
    → to_number locale.double (numeric_part right) ≡ some y
    → compare_trimmed locale left right ≡ compare_decimal x y
unfolding compare_trimmed
compare_trimmed-decimals locale left right x y l r e f = ground arith

-- `compareValues` of two words is 0: both read as the number 0, so `localeCompare` is not asked.
pub compare_values-words :
    (locale : Locale) (s t : Text) → IsWord s → IsWord t → compare_values locale s t ≡ Ordering.eq
unfolding compare_values
compare_values-words locale s t v w =
    compare_trimmed-decimals locale (trim s) (trim t) (locale.double zero_decimal)
      (locale.double zero_decimal) v.not_blank w.not_blank (reads_zero locale s v)
      (reads_zero locale t w)
    ∙ decimal_ties (locale.double zero_decimal)

compare_values-numbers :
    (locale : Locale) (s t : Text) (x y : Decimal)
    → ReadsAs locale s x
    → ReadsAs locale t y
    → compare_values locale s t ≡ compare_decimal x y
unfolding compare_values
compare_values-numbers locale s t x y v w =
    compare_trimmed-decimals locale (trim s) (trim t) x y v.not_blank w.not_blank v.reads w.reads

module _ (locale : Locale) (index : ℕ) (descending : Bool) where
  words_tie :
      (a b : Row)
      → IsWord (cell_at a index)
      → IsWord (cell_at b index)
      → gtb (compare_rows locale index descending a b) ≡ false
  unfolding compare_rows
  words_tie a b v w = rw (compare_values-words locale _ _ v w) (tie descending)
    where
      tie : (d : Bool) → gtb (directed d Ordering.eq) ≡ false
      tie true = refl
      tie false = refl

  -- A column whose shown cells are words (no digit, point or hyphen) is not sorted by "Sort
  -- ascending" or "Sort descending": the rows keep the order in which they were given.
  pub order_rows-words :
      (shown : List Row)
      → All (λ row. IsWord (cell_at row index)) shown
      → order_rows locale (some index) descending shown ≡ shown
  unfolding order_rows
  order_rows-words shown h = sort_by-eq_self _ shown (IsSorted-of_ties _ _ words_tie shown h)

-- The cell of the row in the column reads as the value.
abbrev pub CellReads : Locale → ℕ → (Row → Decimal) → Row → Type 0
CellReads locale index value row = ReadsAs locale (cell_at row index) (value row)

-- the order of the values, and from the greatest to the least where it descends
abbrev pub value_order : (Row → Decimal) → Bool → Row → Row → Ordering
value_order value false a b = compare_decimal (value a) (value b)
value_order value true a b = compare_decimal (value b) (value a)

value_order-IsPreorder :
    (value : Row → Decimal) (descending : Bool) → IsPreorder (value_order value descending) Anything
value_order-IsPreorder value false =
    on-IsPreorder Anything value compare_decimal compare_decimal-IsPreorder
value_order-IsPreorder value true =
    reverse-IsPreorder Anything _
      (on-IsPreorder Anything value compare_decimal compare_decimal-IsPreorder)

module _ (locale : Locale) (index : ℕ) (value : Row → Decimal) where
  compare_rows-value_order :
      (descending : Bool) (a b : Row)
      → CellReads locale index value a
      → CellReads locale index value b
      → compare_rows locale index descending a b ≡ value_order value descending a b
  unfolding compare_rows
  compare_rows-value_order false a b v w = compare_values-numbers locale _ _ _ _ v w
  compare_rows-value_order true a b v w =
      ap swap_order (compare_values-numbers locale _ _ _ _ v w)
      ∙ sym (compare_decimal-IsPreorder.flip (value a) (value b) tt tt)

  sort_by-value_order :
      (descending : Bool) (rows : List Row)
      → All (CellReads locale index value) rows
      → IsSorted
          (value_order value descending)
          (sort_by (compare_rows locale index descending) rows)
  sort_by-value_order descending rows h =
      IsSorted-imp P cmp _ (λ a b v w e. rw (compare_rows-value_order descending a b v w) at e)
        (sort_by cmp rows) (All-sort_by cmp P rows h) (sort_by-IsSorted cmp P preorder rows h)
    where
      cmp : Row → Row → Ordering
      cmp = compare_rows locale index descending

      P : Row → Type 0
      P = CellReads locale index value

      preorder : IsPreorder cmp P
      preorder = record {
        flip = λ a b v w.
            rw
              (
                compare_rows-value_order descending a b v w,
                compare_rows-value_order descending b a w v,
              )
              ((value_order-IsPreorder value descending).flip a b tt tt);
        trans = λ a b c u v w p q. rw (compare_rows-value_order descending a c u w) (
            (value_order-IsPreorder value descending).trans a b c tt tt tt
              (rw (compare_rows-value_order descending a b u v) at p)
              (rw (compare_rows-value_order descending b c v w) at q));
      }

  -- "Sort ascending" and "Sort descending" on a column whose shown cells are numbers put the shown
  -- rows, each as often as given, into the order of the numbers: from the least to the greatest, or
  -- from the greatest to the least. A number is what `Number` makes of the cell's digits, points and
  -- hyphens.
  pub order_rows-numbers :
      (descending : Bool) (shown : List Row)
      → All (CellReads locale index value) shown
      → Perm (order_rows locale (some index) descending shown) shown
        × IsSorted (value_order value descending) (order_rows locale (some index) descending shown)
  unfolding order_rows
  order_rows-numbers descending shown h =
      (sort_by-perm _ shown, sort_by-value_order descending shown h)
