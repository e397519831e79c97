-- ===== src/DataTable/Order.antt =====
-- The order of the frontend's table: what its rows are compared by.
use scan_tls.Common.{
  Bool, true, Text, Ordering, Text, Bool, true, false, List, ◌≡◌, refl, ap, All, IsSorted,
  IsPreorder, sort_by, sort_by-IsSorted, gtb, swap_order, ◌∙◌, sym, All-sort_by, IsSorted-imp, List,
}
use scan_tls.Numbers.{Decimal, compare_decimal}
use scan_tls.Numbers.Order.{compare_decimal-IsPreorder}
use scan_tls.Locale.{Locale, Anything}
use scan_tls.DataTable.{
  SortValue, number, word, Column, compare_keys, in_direction, sort_value, compare_by,
}

flip_in :
    (d : Bool) (x y : Ordering)
    → y ≡ swap_order x
    → in_direction d y ≡ swap_order (in_direction d x)
flip_in true x y h = ap swap_order h
flip_in false x y h = h

module _ {ℓ μ κ} {A : Type ℓ} {B : Type μ} (P : A → Type κ) (c : B → B → Ordering)
    (oc : IsPreorder c Anything) (k : (a : A) → P a → B) (d : Bool) (cmp : A → A → Ordering)
    (reads : (a b : A) (v : P a) (w : P b) → cmp a b ≡ in_direction d (c (k a v) (k b w))) where
  trans_in :
      (e : Bool) (x y z : B)
      → gtb (in_direction e (c x y)) ≡ false
      → gtb (in_direction e (c y z)) ≡ false
      → gtb (in_direction e (c x z)) ≡ false
  trans_in true x y z p q =
      rw (← oc.flip x z tt tt)
        (oc.trans z y x tt tt tt (rw (← oc.flip y z tt tt) at q) (rw (← oc.flip x y tt tt) at p))
  trans_in false x y z p q = oc.trans x y z tt tt tt p q

  -- A comparator that reads its elements by a consistent one, in a direction, is consistent.
  directed-IsPreorder_on : IsPreorder cmp P
  directed-IsPreorder_on = record {
    flip = λ a b v w.
        rw (reads a b v w, reads b a w v) (flip_in d _ _ (oc.flip (k a v) (k b w) tt tt));
    trans = λ a b e u v w p q.
        rw (reads a e u w)
          (trans_in d (k a u) (k b v) (k e w) (rw (reads a b u v) at p) (rw (reads b e v w) at q));
  }

compare_keys-words :
    (locale : Locale) (x y : SortValue) (s t : Text)
    → x ≡ word s
    → y ≡ word t
    → compare_keys locale x y ≡ locale.natural s t
unfolding compare_keys
compare_keys-words locale x y s t e f = rw (e, f) refl

compare_keys-numbers :
    (locale : Locale) (x y : SortValue) (m n : Decimal) (s t : Text)
    → x ≡ number m s
    → y ≡ number n t
    → compare_keys locale x y ≡ compare_decimal m n
compare_keys-numbers locale x y m n s t e f = rw (e, f) (unfold compare_keys in refl)

-- What rows are ordered by: a text of each, or a number of each.
pub data Keys {ℓ} (A : Type ℓ) : Type ℓ where
  words : (A → Text) → Keys A
  numbers : (A → Decimal) → Keys A

module _ {ℓ} {A : Type ℓ} (locale : Locale) where
  -- the order of the keys: the locale's order of texts or the order of numbers, and from the last to
  -- the first where it descends
  abbrev pub key_order : Keys A → Bool → A → A → Ordering
  key_order (words f) false a b = locale.natural (f a) (f b)
  key_order (words f) true a b = locale.natural (f b) (f a)
  key_order (numbers f) false a b = compare_decimal (f a) (f b)
  key_order (numbers f) true a b = compare_decimal (f b) (f a)

  module _ (col : Column A) where
    -- The row's sort value in the column is its key.
    abbrev pub Reads : Keys A → A → Type 0
    Reads (words f) r = sort_value col r ≡ word (f r)
    Reads (numbers f) r = (t : Text) × (sort_value col r ≡ number (f r) t)

    compare_by-words :
        (f : A → Text) (descending : Bool) (a b : A)
        → Reads (words f) a
        → Reads (words f) b
        → compare_by locale col descending a b
          ≡ in_direction descending (locale.natural (f a) (f b))
    unfolding compare_by
    compare_by-words f descending a b v w =
        ap (in_direction descending) (compare_keys-words locale _ _ _ _ v w)

    compare_by-numbers :
        (f : A → Decimal) (descending : Bool) (a b : A)
        → Reads (numbers f) a
        → Reads (numbers f) b
        → compare_by locale col descending a b
          ≡ in_direction descending (compare_decimal (f a) (f b))
    unfolding compare_by
    compare_by-numbers f descending a b (t, v) (u, w) =
        ap (in_direction descending) (compare_keys-numbers locale _ _ _ _ _ _ v w)

    compare_by-IsPreorder :
        (keys : Keys A) (descending : Bool)
        → IsPreorder (compare_by locale col descending) (Reads keys)
    compare_by-IsPreorder (words f) descending =
        directed-IsPreorder_on (Reads (words f)) locale.natural locale.natural_order (λ a v. f a)
          descending _ (compare_by-words f descending)
    compare_by-IsPreorder (numbers f) descending =
        directed-IsPreorder_on (Reads (numbers f)) compare_decimal compare_decimal-IsPreorder
          (λ a v. f a) descending _ (compare_by-numbers f descending)

    compare_by-key_order :
        (keys : Keys A) (descending : Bool) (a b : A)
        → Reads keys a
        → Reads keys b
        → compare_by locale col descending a b ≡ key_order keys descending a b
    compare_by-key_order (words f) false a b v w = compare_by-words f false a b v w
    compare_by-key_order (words f) true a b v w =
        compare_by-words f true a b v w ∙ sym (locale.natural_order.flip (f a) (f b) tt tt)
    compare_by-key_order (numbers f) false a b v w = compare_by-numbers f false a b v w
    compare_by-key_order (numbers f) true a b v w =
        compare_by-numbers f true a b v w ∙ sym (compare_decimal-IsPreorder.flip (f a) (f b) tt tt)

    pub sort_by-key_order :
        (keys : Keys A) (descending : Bool) (rows : List A)
        → All (Reads keys) rows
        → IsSorted (key_order keys descending) (sort_by (compare_by locale col descending) rows)
    sort_by-key_order keys descending rows h =
        IsSorted-imp (Reads keys) _ _
          (λ a b v w e. rw (compare_by-key_order keys descending a b v w) at e)
          (sort_by (compare_by locale col descending) rows) (All-sort_by _ (Reads keys) rows h)
          (sort_by-IsSorted _ (Reads keys) (compare_by-IsPreorder keys descending) rows h)
